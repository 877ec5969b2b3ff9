-- ===== src/Client/Trace.antt =====
-- A run of the client: packets that arrive between requests that are sent. No channel is given more
-- packets than it was registered for.
use goads.Base.{
  ℕ, ◌+◌, ◌≤◌, ◌≡◌, Bool, true, false, Option, none, some, List, [], ◌∷◌, ◌++◌, ◌==◌, if◌then◌else◌,
  arith, Option-cases, inl, inr,
}
use goads.Base.Assoc.{lookup, erase, insert}
use goads.Ams.Outcome.{Outcome, done, panic, Error}
use goads.Ams.Buffer.{Buffer}
use goads.Ams.Header.{Header}
use goads.Ams.Packet.{Packet, read_state_request, device_notification, classify}
use goads.Ams.ReadState.{ReadStateResponse}
use goads.Client.Send
use goads.Client.Send.{Sent, waits, fails, send, fresh_id, with_id, on_encoded}
use goads.Client.{
  on_answer, Client, Effect, deliver, call_back, send_bytes, Turn, continues, returns, crashes,
  Choice, forward, dispatch, on_decoded, on_header, turn, handle_read_state_request,
}

-- How often a channel stands in the handler map, and how often it is given a packet.
abbrev pub registered : ℕ → List (ℕ × ℕ) → ℕ
registered h [] = 0
registered h ((k, j) ∷ m) = (if j == h then 1 else 0) + registered h m

abbrev pub delivered : ℕ → List Effect → ℕ
delivered h [] = 0
delivered h (deliver j p ∷ es) = (if j == h then 1 else 0) + delivered h es
delivered h (call_back r ∷ es) = delivered h es
delivered h (send_bytes b ∷ es) = delivered h es

-- What the turn leaves to come and has given.
abbrev spends : ℕ → Turn → ℕ
spends h (continues c es) = delivered h es + registered h c.handler
spends h (returns c es) = delivered h es + registered h c.handler
spends h crashes = 0

registered-erase : (h k : ℕ) (m : List (ℕ × ℕ)) → registered h (erase k m) ≤ registered h m
unfolding erase
registered-erase h k [] = omega arith
registered-erase h k ((j, v) ∷ m) = ground (arith, registered-erase h k m)

registered-lookup :
    (h k j : ℕ) (m : List (ℕ × ℕ))
    → lookup k m ≡ some j
    → (if j == h then 1 else 0) + registered h (erase k m) ≤ registered h m
unfolding lookup erase
registered-lookup h k j [] e = cc
registered-lookup h k j ((i, v) ∷ m) e =
    ground (arith, registered-erase h k m, registered-lookup h k j m)

spends-forward :
    (h : ℕ) (choice : Choice) (c : Client) (id : ℕ) (p : Packet)
    → spends h (forward choice c id p) ≤ registered h c.handler
unfolding forward
spends-forward h choice c id p = elim (Option-cases (lookup id c.handler)) [
  | inl gone ↦ rw (gone, forward, spends) (omega (arith, registered-erase h id c.handler))
  | inr (j, e) ↦
      rw (e, forward, spends)
        (ground (arith, registered-erase h id c.handler, registered-lookup h id j c.handler e))
]

spends-on_answer :
    (h : ℕ) (choice : Choice) (c : Client)
    (o : Outcome ((ReadStateResponse × Option Error) × Buffer))
    → spends h (on_answer choice c o) ≤ registered h c.handler
unfolding on_answer
spends-on_answer h choice c panic = omega arith
spends-on_answer h choice c (done ((_, some e), b)) = omega arith
spends-on_answer h choice c (done ((_, none), b)) = ground arith

spends-dispatch :
    (h : ℕ) (choice : Choice) (c : Client) (id : ℕ) (p : Packet)
    → spends h (dispatch choice c id p) ≤ registered h c.handler
unfolding dispatch handle_read_state_request
spends-dispatch h choice c id (read_state_request r) = spends-on_answer h choice c _
spends-dispatch h choice c id (device_notification r) = ground arith
spends-dispatch h choice c id p = spends-forward h choice c id p

spends-on_decoded :
    (h : ℕ) (choice : Choice) (c : Client) (id : ℕ) (o : Outcome (Packet × Option Error))
    → spends h (on_decoded choice c id o) ≤ registered h c.handler
unfolding on_decoded
spends-on_decoded h choice c id panic = omega arith
spends-on_decoded h choice c id (done (p, none)) = spends-dispatch h choice c id p
spends-on_decoded h choice c id (done (device_notification r, some e)) = omega arith
spends-on_decoded h choice c id (done (p, some e)) = omega arith

spends-on_header :
    (h : ℕ) (choice : Choice) (c : Client) (bytes : List ℕ)
    (o : Outcome ((Header × Option Error) × Buffer))
    → spends h (on_header choice c bytes o) ≤ registered h c.handler
unfolding on_header
spends-on_header h choice c bytes panic = omega arith
spends-on_header h choice c bytes (done ((hdr, some e), b)) = omega arith
spends-on_header h choice c bytes (done ((hdr, none), b)) =
    elim (Option-cases (classify hdr.ams_header)) [
      | inl unknown ↦ rw (unknown, on_header, spends) (omega arith)
      | inr (decode, e) ↦ rw (e, on_header) (spends-on_decoded h choice c _ (decode bytes))
    ]

spends-turn :
    (h : ℕ) (choice : Choice) (c : Client) (bytes : List ℕ)
    → spends h (turn choice c bytes) ≤ registered h c.handler
unfolding turn
spends-turn h choice c bytes = spends-on_header h choice c bytes _

-- What happens to the client: a packet arrives, or a request is sent with a new channel.
pub data Event : Type 0 where
  arrives : Choice → List ℕ → Event
  sends : Bool → ℕ → (ℕ → Outcome (List ℕ × Option Error)) → Event

-- What follows a turn or a request, where `k` is the rest of the run.
unfoldable pub after_turn : (Client → List Effect) → Turn → List Effect
after_turn k (continues c es) = es ++ k c
after_turn k (returns c es) = es
after_turn k crashes = []

unfoldable pub after_send : (Client → List Effect) → Sent → List Effect
after_send k (waits c bytes) = send_bytes bytes ∷ k c
after_send k (fails c) = k c
after_send k Send.crashes = []

-- The effects of a run; it ends with the loop of `receive`, after which nothing is delivered.
unfoldable pub run : List Event → Client → List Effect
unfolding after_turn after_send
run [] c = []
run (arrives choice bytes ∷ events) c = after_turn (run events) (turn choice c bytes)
run (sends write_works channel encode ∷ events) c =
    after_send (run events) (send write_works channel c encode)

-- How often a channel is made in a run.
abbrev pub made : ℕ → List Event → ℕ
made h [] = 0
made h (arrives choice bytes ∷ events) = made h events
made h (sends w j encode ∷ events) = (if j == h then 1 else 0) + made h events

delivered-append :
    (h : ℕ) (es fs : List Effect) → delivered h (es ++ fs) ≡ delivered h es + delivered h fs
delivered-append h [] fs = omega arith
delivered-append h (deliver j p ∷ es) fs = omega (arith, delivered-append h es fs)
delivered-append h (call_back r ∷ es) fs = delivered-append h es fs
delivered-append h (send_bytes b ∷ es) fs = delivered-append h es fs

module _ (h n : ℕ) (k : Client → List Effect)
    (rest : (c : Client) → delivered h (k c) ≤ registered h c.handler + n) where
  after_turn_bound : (t : Turn) (r : ℕ) → spends h t ≤ r → delivered h (after_turn k t) ≤ r + n
  unfolding after_turn
  after_turn_bound (continues c es) r s = omega (arith, rest c, delivered-append h es (k c))
  after_turn_bound (returns c es) r s = omega arith
  after_turn_bound crashes r s = omega arith

  after_send_bound :
      (w : Bool) (j : ℕ) (c : Client) (o : Outcome (List ℕ × Option Error))
      → delivered h (after_send k (on_encoded w j c o))
        ≤ registered h c.handler + ((if j == h then 1 else 0) + n)
  unfolding after_send on_encoded insert
  after_send_bound w j c panic = omega arith
  after_send_bound w j c (done (bytes, some e)) = omega (arith, rest (with_id c))
  after_send_bound true j c (done (bytes, none)) = omega (
    arith,
    rest (record (with_id c) { handler = insert (fresh_id c) j c.handler }),
    registered-erase h (fresh_id c) c.handler,
  )
  after_send_bound false j c (done (bytes, none)) = omega (
    arith,
    rest (record (with_id c) { handler = erase (fresh_id c) (insert (fresh_id c) j c.handler) }),
    registered-erase h (fresh_id c) (insert (fresh_id c) j c.handler),
    registered-erase h (fresh_id c) c.handler,
  )

-- In a run from any state a channel is given at most as many packets as there were handlers with it
-- and requests that made it: a channel made once is given one packet at most.
pub delivered_bound :
    (h : ℕ) (events : List Event) (c : Client)
    → delivered h (run events c) ≤ registered h c.handler + made h events
unfolding run send
delivered_bound h [] c = omega arith
delivered_bound h (arrives choice bytes ∷ events) c =
    after_turn_bound h (made h events) (run events) (delivered_bound h events) (turn choice c bytes)
      _ (spends-turn h choice c bytes)
delivered_bound h (sends w j encode ∷ events) c =
    after_send_bound h (made h events) (run events) (delivered_bound h events) w j c _
