-- ===== src/Client/Methods/Passing.antt =====
-- A call that waits, and the packets that are no response to its request.
use goads.Base.{
  ℕ, ◌<◌, ◌≤◌, ◌≡◌, ◌≢◌, refl, ◌∙◌, Bool, true, false, none, some, List, [], ◌∷◌, arith,
  if◌then◌else◌, Option-cases, Bool-cases, inl, inr,
}
use goads.Base.Assoc.{lookup, erase, lookup-erase}
use goads.Ams.Packet.{Packet, read_state_request, device_notification}
use goads.Ams.Packet.Wire.{ams_of, packet_wire, IsPacket}
use goads.Ams.Constants.{no_error}
use goads.Ams.ReadState.{ReadStateRequest, new_read_state_response}
use goads.Ams.ReadState.Wire.{Writes-response, response_wire}
use goads.Ams.Notification.{DeviceNotificationRequest}
use goads.Client.{
  Client, Choice, Effect, deliver, call_back, Turn, continues, turn, forward, dispatch,
  handle_read_state_request, on_answer, state_response,
}
use goads.Client.Receive.{turn-packet}
use goads.Client.Methods.{Connection, delivered_to, fed, give_device}

-- The channel `h` stands in the handler map under `id` alone, and none made later stands there.
pub record Waits (h id : ℕ) (c : Client) : Type 0 where
  pub stands : lookup id c.handler ≡ some h
  pub only : (k : ℕ) → lookup k c.handler ≡ some h → k ≡ id
  pub below : (k j : ℕ) → lookup k c.handler ≡ some j → j ≤ h

-- A response to another request, or a notification.
abbrev pub Passes : ℕ → Packet → Type 0
Passes id (read_state_request r) = 0 < 0
Passes id (device_notification r) = Unit
Passes id p = (ams_of p).invoke_id ≢ id

-- What a client in the given states answers to a request for them.
abbrev pub state_answer : ℕ → ℕ → ReadStateRequest → List ℕ
state_answer ads_state device_state r =
    let h = r.ams_header in
    let resp = new_read_state_response h.sender h.target no_error ads_state device_state in
    response_wire (record resp { ams_header = record resp.ams_header { invoke_id = h.invoke_id } })

-- A turn that leaves the call waiting and the states as they are, with what it does to the connection.
abbrev pub Passed :
    {D : Type 0}
    → (List ℕ → D → List (List ℕ) × D)
    → (Connection D → Connection D)
    → ℕ
    → ℕ
    → Client
    → Turn
    → Type 0
Passed {D} device does h id c t =
    (c' : Client) × (es : List Effect) × (t ≡ continues c' es)
    × (delivered_to h es ≡ none)
    × Waits h id c'
    × (c'.ads_state ≡ c.ads_state)
    × (c'.device_state ≡ c.device_state)
    × ((w : Connection D) → fed device es w ≡ does w)

module _ {D : Type 0} (device : List ℕ → D → List (List ℕ) × D) (choice : Choice) (h id : ℕ)
    (c : Client) (w : Waits h id c) where
  erased : (k : ℕ) → k ≢ id → Waits h id (record c { handler = erase k c.handler })
  erased k other = record {
    stands = lookup-erase k id c.handler ∙ ground (arith, w.stands);
    only = λ j e. ground (arith, w.only j, lookup-erase k j c.handler);
    below = λ j v e. ground (arith, w.below j v, lookup-erase k j c.handler);
  }

  forward-Passed :
      (k : ℕ) (p : Packet) → k ≢ id → Passed device (λ v. v) h id c (forward choice c k p)
  unfolding forward delivered_to fed
  forward-Passed k p other = elim (Option-cases (lookup k c.handler)) [
    | inl gone ↦ (_, [], rw (gone, forward) refl, refl, erased k other, refl, refl, λ v. refl)
    | inr (j, l) ↦ elim (Bool-cases choice.takes_done) [
      | inl done_first ↦
          (_, [], rw (l, forward) (rw done_first refl), refl, erased k other, refl, refl, λ v. refl)
      | inr goes ↦ (
        _,
        deliver j p ∷ [],
        rw (l, forward) (rw goes refl),
        ground (arith, w.only k, l),
        erased k other,
        refl,
        refl,
        λ v. refl,
      )
    ]
  ]

  called_back :
      (b : Bool) (r : DeviceNotificationRequest)
      → Passed device (λ v. v) h id c (continues c (if b then call_back r ∷ [] else []))
  unfolding delivered_to fed
  called_back true r = (c, _, refl, refl, w, refl, refl, λ v. refl)
  called_back false r = (c, _, refl, refl, w, refl, refl, λ v. refl)

  answer-Passed :
      (r : ReadStateRequest)
      → choice.write_works ≡ true
      → Passed device
          (give_device device (state_answer c.ads_state c.device_state r))
          h
          id
          c
          (handle_read_state_request choice c r)
  unfolding handle_read_state_request on_answer delivered_to fed state_response
  answer-Passed r works =
      rw ((Writes-response (state_response c r)).run [], handle_read_state_request, on_answer)
        (rw works (c, _, refl, refl, w, refl, refl, λ v. refl))

  dispatch-Passed :
      (p : Packet)
      → Passes id p
      → Passed device (λ v. v) h id c (dispatch choice c (ams_of p).invoke_id p)
  unfolding dispatch
  dispatch-Passed (read_state_request r) never = absurd (omega (arith, never))
  dispatch-Passed (device_notification r) other = called_back c.has_callback r
  dispatch-Passed p other = forward-Passed (ams_of p).invoke_id p other

  pub turn-Passed :
      (p : Packet)
      → IsPacket p
      → Passes id p
      → Passed device (λ v. v) h id c (turn choice c (packet_wire p))
  turn-Passed p v other = rw (turn-packet choice c p v) (dispatch-Passed p other)

  pub question-Passed :
      (r : ReadStateRequest)
      → choice.write_works ≡ true
      → IsPacket (read_state_request r)
      → Passed device
          (give_device device (state_answer c.ads_state c.device_state r))
          h
          id
          c
          (turn choice c (packet_wire (read_state_request r)))
  unfolding dispatch
  question-Passed r works v =
      rw (turn-packet choice c (read_state_request r) v) (answer-Passed r works)
