-- ===== src/Client/Steps/Sequential.antt =====
-- `send` and `turn` of the client on its own, beside the steps of the goroutines.
use goads.Base.{
  ℕ, ◌≡◌, ◌⊎◌, inl, inr, Bool, true, false, Option, none, some, List, [], ◌∷◌, arith, refl,
  if◌then◌else◌, Option-cases, Bool-cases,
}
use goads.Base.Assoc.{lookup, erase}
use goads.Ams.Outcome.{Outcome, done, panic, Error}
use goads.Ams.Packet.{Packet, read_state_request, device_notification}
use goads.Ams.Notification.{DeviceNotificationRequest}
use goads.Ams.ReadState.{ReadStateRequest}
use goads.Ams.ReadState.Wire.{Writes-response}
use goads.Ams.Packet.Wire.{ams_of, packet_wire, IsPacket}
use goads.Client.Receive.{turn-packet}
use goads.Client.{
  turn, state_response, Choice, Effect, deliver, call_back, Turn, continues, returns, crashes,
  forward, dispatch, handle_read_state_request, on_answer,
}
use goads.Client.Send
use goads.Client.Send.{Sent, waits, fails, send, fresh_id, with_id, on_encoded}
use goads.Client.Steps.{
  numbered, waiting, returned, unwritten, unencoded, Hand, takes, System, Step, Reach, Steps, here,
  onward,
}
use goads.Client.Steps.Invariant.{Inv, Reach-Inv}

-- The state of the goroutines behind a call of `send`.
abbrev pub Behind : Sent → System → ℕ → ℕ → Type 0
Behind (waits c bytes) t i id = (t.client ≡ c) × (t.phase i ≡ waiting id)
Behind (fails c) t i id =
    (t.client ≡ c) × ((t.phase i ≡ returned id unwritten) ⊎ (t.phase i ≡ returned id unencoded))
Behind Send.crashes t i id = t.phase i ≡ numbered id

on_encoded-Steps :
    {ctx_done : Bool} (write_works : Bool) (s : System) (o : Outcome (List ℕ × Option Error))
    → (t : System) × Steps ctx_done s t
      × Behind (on_encoded write_works s.begun s.client o) t s.begun (fresh_id s.client)
unfolding on_encoded with_id
on_encoded-Steps w s panic = (_, onward Step.begins here, ground arith)
on_encoded-Steps w s (done (bytes, some e)) = (
  _,
  onward Step.begins
      (onward (Step.gives_up_encoding s.begun {id = fresh_id s.client} (ground arith)) here),
  (refl, inr (ground arith)),
)
on_encoded-Steps true s (done (bytes, none)) = (
  _,
  onward Step.begins (
      onward (Step.registers s.begun {id = fresh_id s.client} (ground arith))
        (onward (Step.writes s.begun {id = fresh_id s.client} (ground arith)) here)),
  (refl, ground arith),
)
on_encoded-Steps false s (done (bytes, none)) = (
  _,
  onward Step.begins (
      onward (Step.registers s.begun {id = fresh_id s.client} (ground arith)) (
        onward (Step.fails_to_write s.begun {id = fresh_id s.client} (ground arith))
          (onward (Step.unregisters s.begun {id = fresh_id s.client} (ground arith)) here))),
  (refl, inl (ground arith)),
)

-- From every state of the goroutines a call can take its steps in a row, and then the client is the
-- one that `send` leaves with this call's channel, and the call waits, or has returned an error, or
-- has panicked as it encoded, as `send` says.
pub send-Steps :
    {ctx_done : Bool} (write_works : Bool) (s : System)
    (encode : ℕ → Outcome (List ℕ × Option Error))
    → (t : System) × Steps ctx_done s t
      × Behind (send write_works s.begun s.client encode) t s.begun (fresh_id s.client)
unfolding send
send-Steps w s encode = on_encoded-Steps w s (encode (fresh_id s.client))

-- The channels behind the effects of a packet that came with an invoke id.
abbrev pub Given : ℕ → List Effect → System → Type 0
Given k [] t = Unit
Given k (deliver i p ∷ es) t =
    (t.channel i ≡ record { content = some (k, p); closed = true }) × Given k es t
Given k (_ ∷ es) t = Given k es t

-- The state of the goroutines behind a turn of `receive`, which goes on or returns, and does not
-- panic.
abbrev pub After : ℕ → Turn → System → Type 0
After k (continues c es) t = (t.client ≡ c) × (t.hand ≡ takes) × Given k es t
After k (returns c es) t = (t.client ≡ c) × (t.hand ≡ Hand.stopped) × Given k es t
After k crashes t = ⊥

module _ {first : ℕ} {s : System} (inv : Inv first s) (k : ℕ) (p : Packet)
    (h : s.hand ≡ takes) where
  found-Steps :
      (ctx_done : Bool) (i : ℕ)
      → lookup k s.client.handler ≡ some i
      → let c = record s.client { handler = erase k s.client.handler } in
        (t : System) × Steps ctx_done s t
        × After k (if ctx_done then continues c [] else continues c (deliver i p ∷ [])) t
  found-Steps true i l = (
    _,
    onward (Step.finds k p h l) (onward (Step.skips {i = i} {k = k} {p = p} refl refl) here),
    (refl, refl, tt),
  )
  found-Steps false i l =
      let (a, b, empty) = inv.listed k i l in
      (
        _,
        onward (Step.finds k p h l) (
            onward (Step.sends {i = i} {k = k} {p = p} refl empty.1 empty.0)
              (onward (Step.closes_open {i = i} refl (ground arith)) here)),
        (refl, refl, (ground arith, tt)),
      )

  forward-Steps :
      (choice : Choice)
      → (t : System) × Steps choice.takes_done s t × After k (forward choice s.client k p) t
  unfolding forward
  forward-Steps choice = elim (Option-cases (lookup k s.client.handler)) [
    | inl gone ↦ (_, onward (Step.drops k h gone) here, rw (gone, forward) (refl, refl, tt))
    | inr (i, l) ↦ rw (l, forward) (found-Steps choice.takes_done i l)
  ]

state_answer-Steps :
    (choice : Choice) {s : System} (k : ℕ)
    → s.hand ≡ takes
    → (req : ReadStateRequest)
    → (t : System) × Steps choice.takes_done s t
      × After k (handle_read_state_request choice s.client req) t
unfolding handle_read_state_request on_answer
state_answer-Steps choice {s} k h req =
    rw
      ((Writes-response (state_response s.client req)).run [], handle_read_state_request, on_answer)
      (elim (Bool-cases choice.write_works) [
        | inl works ↦ rw works (_, here, (refl, h, tt))
        | inr broken ↦ rw broken (_, onward (Step.ends h) here, (refl, refl, tt))
      ])

Given-call_back :
    (called : Bool) (k : ℕ) (r : DeviceNotificationRequest) (t : System)
    → Given k (if called then call_back r ∷ [] else []) t
Given-call_back true k r t = tt
Given-call_back false k r t = tt

dispatch-Steps :
    {first : ℕ} (choice : Choice) {s : System} (k : ℕ) (p : Packet)
    → Inv first s
    → s.hand ≡ takes
    → (t : System) × Steps choice.takes_done s t × After k (dispatch choice s.client k p) t
unfolding dispatch
dispatch-Steps choice k (read_state_request r) inv h = state_answer-Steps choice k h r
dispatch-Steps choice {s} k (device_notification r) inv h =
    (s, here, (refl, h, Given-call_back s.client.has_callback k r s))
dispatch-Steps choice k p inv h = forward-Steps inv k p h choice

-- From every state that can come to be in which `receive` takes the bytes of a packet that it knows,
-- its fields within their types and its header bearing its command id and flags: `receive` can take
-- its steps in a row, and then the client is the one that the turn of the loop leaves, the channel to
-- which the turn delivers the packet holds it and is closed, and `receive` is about to take the next
-- packet, or has returned where the turn returns.
pub turn-Steps :
    {first : ℕ} (choice : Choice) {s : System} (p : Packet)
    → Reach choice.takes_done first s
    → s.hand ≡ takes
    → IsPacket p
    → (t : System) × Steps choice.takes_done s t
      × After (ams_of p).invoke_id (turn choice s.client (packet_wire p)) t
turn-Steps choice {s} p r h v =
    rw (turn-packet choice s.client p v)
      (dispatch-Steps choice (ams_of p).invoke_id p (Reach-Inv r) h)
