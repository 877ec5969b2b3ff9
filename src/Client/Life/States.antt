-- ===== src/Client/Life/States.antt =====
-- The states of a client through the life of `receive`, and what it tells others of them.
use goads.Base.{
  ℕ, ◌≡◌, refl, ap, Bool, true, false, Option, none, some, List, [], ◌∷◌, ◌++◌, if◌then◌else◌,
  Option-cases, Bool-cases, inl, inr,
}
use goads.Base.Assoc.{lookup}
use goads.Ams.Constants.{no_error, ads_state_run, ads_state_stop}
use goads.Ams.Outcome.{Outcome, done, panic, Error}
use goads.Ams.Buffer.{Buffer}
use goads.Ams.Header.{Header}
use goads.Ams.Notification.{DeviceNotificationRequest}
use goads.Ams.ReadState.{ReadStateRequest, ReadStateResponse, new_read_state_response}
use goads.Ams.ReadState.Wire.{response_wire, Writes-response}
use goads.Ams.Packet.{Packet, read_state_request, device_notification, classify}
use goads.Client.{
  Client, Effect, deliver, call_back, send_bytes, Choice, Turn, continues, returns, crashes,
  state_response, on_answer, handle_read_state_request, forward, dispatch, on_decoded, on_header,
  turn,
}
use goads.Client.Life.{
  with_states, get_state, Life, reading, over, panicked, behind, on_loop, loop, receive,
}

-- Bytes that report states: a ReadState response without an error.
abbrev pub Reports : ℕ → ℕ → List ℕ → Type 0
Reports a d bytes =
    (r : ReadStateResponse) × (bytes ≡ response_wire r)
    × (r.result ≡ no_error)
    × (r.ads_state ≡ a)
    × (r.device_state ≡ d)

-- All that is sent reports the states.
abbrev pub AllReport : ℕ → ℕ → List Effect → Type 0
AllReport a d [] = Unit
AllReport a d (send_bytes bytes ∷ es) = Reports a d bytes × AllReport a d es
AllReport a d (deliver h p ∷ es) = AllReport a d es
AllReport a d (call_back r ∷ es) = AllReport a d es

-- A turn that leaves the states and reports no others.
abbrev Keeping : ℕ → ℕ → Turn → Type 0
Keeping a d (continues c es) = (get_state c ≡ (a, d)) × AllReport a d es
Keeping a d (returns c es) = AllReport a d es
Keeping a d crashes = Unit

AllReport-call_back :
    (a d : ℕ) (given : Bool) (r : DeviceNotificationRequest)
    → AllReport a d (if given then call_back r ∷ [] else [])
AllReport-call_back a d true r = tt
AllReport-call_back a d false r = tt

module _ (choice : Choice) (a d : ℕ) (c : Client) (s : get_state c ≡ (a, d)) where
  Keeping-forward : (id : ℕ) (p : Packet) → Keeping a d (forward choice c id p)
  unfolding forward
  Keeping-forward id p = elim (Option-cases (lookup id c.handler)) [
    | inl gone ↦ rw (gone, forward) (s, tt)
    | inr (h, e) ↦ elim (Bool-cases choice.takes_done) [
      | inl first ↦ rw (e, forward) (rw first (s, tt))
      | inr goes ↦ rw (e, forward) (rw goes (s, tt))
    ]
  ]

  Keeping-answer : (r : ReadStateRequest) → Keeping a d (handle_read_state_request choice c r)
  unfolding handle_read_state_request on_answer state_response new_read_state_response
  Keeping-answer r =
      let says : Reports a d (response_wire (state_response c r)) =
        (state_response c r, refl, refl, ap (λ p. p.0) s, ap (λ p. p.1) s) in
      rw ((Writes-response (state_response c r)).run [], handle_read_state_request, on_answer)
        (elim (Bool-cases choice.write_works) [
          | inl works ↦ rw works (s, (says, tt))
          | inr broken ↦ rw broken tt
        ])

  Keeping-dispatch : (id : ℕ) (p : Packet) → Keeping a d (dispatch choice c id p)
  unfolding dispatch
  Keeping-dispatch id (read_state_request r) = Keeping-answer r
  Keeping-dispatch id (device_notification r) = (s, AllReport-call_back a d c.has_callback r)
  Keeping-dispatch id p = Keeping-forward id p

  Keeping-on_decoded :
      (id : ℕ) (o : Outcome (Packet × Option Error)) → Keeping a d (on_decoded choice c id o)
  unfolding on_decoded
  Keeping-on_decoded id panic = tt
  Keeping-on_decoded id (done (p, none)) = Keeping-dispatch id p
  Keeping-on_decoded id (done (device_notification r, some e)) = (s, tt)
  Keeping-on_decoded id (done (p, some e)) = tt

  Keeping-on_header :
      (bytes : List ℕ) (o : Outcome ((Header × Option Error) × Buffer))
      → Keeping a d (on_header choice c bytes o)
  unfolding on_header
  Keeping-on_header bytes panic = tt
  Keeping-on_header bytes (done ((hdr, some e), b)) = tt
  Keeping-on_header bytes (done ((hdr, none), b)) = elim (Option-cases (classify hdr.ams_header)) [
    | inl unknown ↦ rw (unknown, on_header) (s, tt)
    | inr (decode, e) ↦ rw (e, on_header) (Keeping-on_decoded _ (decode bytes))
  ]

  Keeping-turn : (bytes : List ℕ) → Keeping a d (turn choice c bytes)
  unfolding turn
  Keeping-turn bytes = Keeping-on_header bytes _

-- The states of a client behind some reads, and what it has sent.
abbrev pub Shows : ℕ → ℕ → Life → Type 0
Shows a d (reading c es) = (get_state c ≡ (a, d)) × AllReport a d es
Shows a d (over c es) = (get_state c ≡ (ads_state_stop, ads_state_stop)) × AllReport a d es
Shows a d (panicked es) = AllReport a d es

AllReport-append :
    (a d : ℕ) (es fs : List Effect) → AllReport a d es → AllReport a d fs → AllReport a d (es ++ fs)
AllReport-append a d [] fs before later = later
AllReport-append a d (send_bytes bytes ∷ es) fs (r, before) later =
    (r, AllReport-append a d es fs before later)
AllReport-append a d (deliver h p ∷ es) fs before later = AllReport-append a d es fs before later
AllReport-append a d (call_back r ∷ es) fs before later = AllReport-append a d es fs before later

Shows-behind :
    (a d : ℕ) (es : List Effect) (l : Life)
    → AllReport a d es
    → Shows a d l
    → Shows a d (behind es l)
Shows-behind a d es (reading c fs) before (s, later) = (s, AllReport-append a d es fs before later)
Shows-behind a d es (over c fs) before (s, later) = (s, AllReport-append a d es fs before later)
Shows-behind a d es (panicked fs) before later = AllReport-append a d es fs before later

Shows-on_loop :
    (a d : ℕ) (k : Client → Life) (t : Turn)
    → ((c : Client) → get_state c ≡ (a, d) → Shows a d (k c))
    → Keeping a d t
    → Shows a d (on_loop k t)
unfolding on_loop
Shows-on_loop a d k (continues c es) rest (s, said) = Shows-behind a d es (k c) said (rest c s)
Shows-on_loop a d k (returns c es) rest said = (refl, said)
Shows-on_loop a d k crashes rest said = tt

loop-Shows :
    (a d : ℕ) (reads : List (Choice × Option (List ℕ))) (c : Client)
    → get_state c ≡ (a, d)
    → Shows a d (loop reads c)
unfolding loop
loop-Shows a d [] c s = (s, tt)
loop-Shows a d ((choice, none) ∷ reads) c s = (refl, tt)
loop-Shows a d ((choice, some bytes) ∷ reads) c s =
    Shows-on_loop a d (loop reads) (turn choice c bytes) (loop-Shows a d reads)
      (Keeping-turn choice a d c s bytes)

-- Behind any reads by `receive`, from any client: while the loop goes on both states are Run, and where
-- it has returned both are Stop; all bytes that it has written are ReadState responses without an
-- error that report Run for both. Nothing else changes the states of this client meanwhile.
pub receive-Shows :
    (reads : List (Choice × Option (List ℕ))) (c : Client)
    → Shows ads_state_run ads_state_run (receive reads c)
unfolding receive
receive-Shows reads c =
    loop-Shows ads_state_run ads_state_run reads (with_states ads_state_run c) refl
