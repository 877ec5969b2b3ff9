-- ===== src/Subscription/Arrivals.antt =====
-- client.go and notification.go together: the packets that arrive at a client, and the callbacks of
-- the manager that they lead to.
use goads.Base.{
  ℕ, ◌≡◌, refl, sym, ap, ◌∙◌, Bool, true, false, Option, some, List, [], ◌∷◌, ◌++◌, if◌then◌else◌,
  Option-cases, Bool-cases, inl, inr,
}
use mathlib.Core.Path.{subst}
use mathlib.Core.List.{append_assoc, append-nil}
use goads.Base.Assoc.{lookup}
use goads.Ams.Constants.{ads_state_run}
use goads.Ams.Notification.{DeviceNotificationRequest}
use goads.Ams.Packet.{Packet, device_notification, read_state_request}
use goads.Ams.Packet.Wire.{ams_of, packet_wire, IsPacket}
use goads.Ams.ReadState.{ReadStateRequest}
use goads.Ams.ReadState.Wire.{Writes-response}
use goads.Client.{
  Client, Choice, Effect, deliver, call_back, send_bytes, Turn, continues, turn, forward, dispatch,
  handle_read_state_request, on_answer, state_response,
}
use goads.Client.Receive.{turn-packet}
use goads.Client.Life.{Life, reading, over, panicked, behind, on_loop, loop, receive, with_states}
use goads.Subscription.{Handler, Called, process}
use goads.Subscription.Delivery.{callback_of, due, until_panic, process-due}

-- The manager's callback is the client's: what effects of `receive` lead to.
abbrev pub calls_behind : (Called → Bool) → List (ℕ × Handler) → List Effect → List Called
calls_behind panics handlers [] = []
calls_behind panics handlers (call_back req ∷ es) =
    process panics handlers req ++ calls_behind panics handlers es
calls_behind panics handlers (deliver h p ∷ es) = calls_behind panics handlers es
calls_behind panics handlers (send_bytes b ∷ es) = calls_behind panics handlers es

abbrev pub calls_in : (Called → Bool) → List (ℕ × Handler) → Life → List Called
calls_in panics handlers (reading c es) = calls_behind panics handlers es
calls_in panics handlers (over c es) = calls_behind panics handlers es
calls_in panics handlers (panicked es) = calls_behind panics handlers es

-- What one packet should lead to, and what packets should in their order.
abbrev pub notified_by : (Called → Bool) → List (ℕ × Handler) → Bool → Packet → List Called
notified_by panics handlers true (device_notification req) =
    until_panic panics (due (callback_of handlers) req.stamps)
notified_by panics handlers _ _ = []

abbrev pub notified : (Called → Bool) → List (ℕ × Handler) → Bool → List Packet → List Called
notified panics handlers given [] = []
notified panics handlers given (p ∷ ps) =
    notified_by panics handlers given p ++ notified panics handlers given ps

-- Reads that each give the bytes of one packet.
abbrev pub reads_of : Choice → List Packet → List (Choice × Option (List ℕ))
reads_of choice [] = []
reads_of choice (p ∷ ps) = (choice, some (packet_wire p)) ∷ reads_of choice ps

abbrev pub AllPackets : List Packet → Type 0
AllPackets [] = Unit
AllPackets (p ∷ ps) = IsPacket p × AllPackets ps

module _ (panics : Called → Bool) (handlers : List (ℕ × Handler)) where
  calls_behind-append :
      (es fs : List Effect)
      → calls_behind panics handlers (es ++ fs)
        ≡ calls_behind panics handlers es ++ calls_behind panics handlers fs
  calls_behind-append [] fs = refl
  calls_behind-append (call_back req ∷ es) fs =
      ap (λ c. process panics handlers req ++ c) (calls_behind-append es fs)
      ∙ sym (
          append_assoc (process panics handlers req) (calls_behind panics handlers es)
            (calls_behind panics handlers fs))
  calls_behind-append (deliver h p ∷ es) fs = calls_behind-append es fs
  calls_behind-append (send_bytes b ∷ es) fs = calls_behind-append es fs

  calls_in-behind :
      (es : List Effect) (l : Life)
      → calls_in panics handlers (behind es l)
        ≡ calls_behind panics handlers es ++ calls_in panics handlers l
  calls_in-behind es (reading c fs) = calls_behind-append es fs
  calls_in-behind es (over c fs) = calls_behind-append es fs
  calls_in-behind es (panicked fs) = calls_behind-append es fs

  -- A turn that goes on, with the callback kept and the calls of one packet.
  abbrev Turned : Bool → Packet → Turn → Type 0
  Turned given p t =
      (c : Client) × (es : List Effect) × (t ≡ continues c es)
      × (c.has_callback ≡ given)
      × (calls_behind panics handlers es ≡ notified_by panics handlers given p)

  Turned-call_back :
      (given : Bool) (c : Client) (r : DeviceNotificationRequest)
      → c.has_callback ≡ given
      → Turned given (device_notification r) (continues c (if given then call_back r ∷ [] else []))
  Turned-call_back true c r e =
      (c, _, refl, e, append-nil (process panics handlers r) ∙ process-due panics handlers r)
  Turned-call_back false c r e = (c, _, refl, e, refl)

  -- A turn that goes on, with the callback kept and no calls.
  abbrev Silent : Bool → Turn → Type 0
  Silent given t =
      (c : Client) × (es : List Effect) × (t ≡ continues c es)
      × (c.has_callback ≡ given)
      × (calls_behind panics handlers es ≡ [])

  module _ (choice : Choice) (given : Bool) (c : Client) (e : c.has_callback ≡ given) where
    Silent-forward : (k : ℕ) (p : Packet) → Silent given (forward choice c k p)
    unfolding forward
    Silent-forward k p = elim (Option-cases (lookup k c.handler)) [
      | inl gone ↦ rw (gone, forward) (_, [], refl, e, refl)
      | inr (h, l) ↦ elim (Bool-cases choice.takes_done) [
        | inl first ↦ rw (l, forward) (rw first (_, [], refl, e, refl))
        | inr goes ↦ rw (l, forward) (rw goes (_, deliver h p ∷ [], refl, e, refl))
      ]
    ]

    Silent-answer :
        (r : ReadStateRequest)
        → choice.write_works ≡ true
        → Silent given (handle_read_state_request choice c r)
    unfolding handle_read_state_request on_answer
    Silent-answer r works =
        rw ((Writes-response (state_response c r)).run [], handle_read_state_request, on_answer)
          (rw works (c, _, refl, e, refl))

  dispatch-Turned :
      (choice : Choice) (given : Bool) (c : Client) (k : ℕ) (p : Packet)
      → choice.write_works ≡ true
      → c.has_callback ≡ given
      → Turned given p (dispatch choice c k p)
  unfolding dispatch
  dispatch-Turned choice given c k (device_notification r) works e =
      subst
        (λ b.
          Turned b (device_notification r)
            (continues c (if c.has_callback then call_back r ∷ [] else [])))
        e (Turned-call_back c.has_callback c r refl)
  dispatch-Turned choice true c k (read_state_request r) works e =
      Silent-answer choice true c e r works
  dispatch-Turned choice false c k (read_state_request r) works e =
      Silent-answer choice false c e r works
  dispatch-Turned choice true c k p works e = Silent-forward choice true c e k p
  dispatch-Turned choice false c k p works e = Silent-forward choice false c e k p

  loop-notified :
      (choice : Choice) (given : Bool) (ps : List Packet) (c : Client)
      → choice.write_works ≡ true
      → AllPackets ps
      → c.has_callback ≡ given
      → calls_in panics handlers (loop (reads_of choice ps) c) ≡ notified panics handlers given ps
  unfolding loop on_loop
  loop-notified choice given [] c works all e = refl
  loop-notified choice given (p ∷ ps) c works (v, all) e =
      let (c', es, same, kept, calls) =
        dispatch-Turned choice given c (ams_of p).invoke_id p works e in
      let turned : turn choice c (packet_wire p) ≡ continues c' es =
        turn-packet choice c p v ∙ same in
      let rest = loop-notified choice given ps c' works all kept in
      rw (turned, on_loop)
        (calls_in-behind es (loop (reads_of choice ps) c')
          ∙ ap (λ q. q ++ calls_in panics handlers (loop (reads_of choice ps) c')) calls
          ∙ ap (λ q. notified_by panics handlers given p ++ q) rest)

-- The bytes of packets that the client knows, their fields within their types and their headers bearing
-- their command ids and flags, come one packet with each read, and writes to the socket work. If the
-- client has the callback of a manager whose handlers stay, the calls of the users' callbacks are, for
-- each notification among the packets in their order, one for each sample whose handle has a callback, in
-- the order of the stamps and samples, with the sample's handle and bytes and the time of its stamp, up to
-- the first call of that notification that panics; a panic does not keep the calls of later notifications
-- away. Without a callback of the client there are none.
pub receive-notified :
    (panics : Called → Bool) (handlers : List (ℕ × Handler)) (choice : Choice) (ps : List Packet)
    (c : Client)
    → choice.write_works ≡ true
    → AllPackets ps
    → calls_in panics handlers (receive (reads_of choice ps) c)
      ≡ notified panics handlers c.has_callback ps
unfolding receive
receive-notified panics handlers choice ps c works all =
    loop-notified panics handlers choice c.has_callback ps (with_states ads_state_run c) works all
      refl
