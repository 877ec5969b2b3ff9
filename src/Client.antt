-- ===== src/Client.antt =====
-- client.go: the client's state, what it does with one packet, and the requests that it sends.
pub mod Receive
pub mod Send
pub mod Trace
pub mod Exchange
pub mod Steps
pub mod Methods
pub mod Life
use goads.Base.{ℕ, Bool, Option, none, some, List, [], ◌∷◌, if◌then◌else◌}
use goads.Base.Assoc.{lookup, erase}
use goads.Ams.Outcome.{Outcome, done, panic, Error}
use goads.Ams.Buffer.{Buffer, new_buffer}
use goads.Ams.Header.{Header, zero_header}
use goads.Ams.Header
use goads.Ams.Constants.{no_error}
use goads.Ams.ReadState.{ReadStateRequest, ReadStateResponse, new_read_state_response}
use goads.Ams.ReadState
use goads.Ams.Notification.{DeviceNotificationRequest}
use goads.Ams.Packet.{Packet, read_state_request, device_notification, classify}

-- `handler` maps an invoke id to a channel, which is a number here.
pub record Client : Type 0 where
  pub next_invoke_id : ℕ
  pub handler : List (ℕ × ℕ)
  pub ads_state : ℕ
  pub device_state : ℕ
  pub has_callback : Bool

-- What the client does to its surroundings.
pub data Effect : Type 0 where
  deliver : ℕ → Packet → Effect
  call_back : DeviceNotificationRequest → Effect
  send_bytes : List ℕ → Effect

-- What a turn of the loop of `receive` came to. A panic ends the program.
pub data Turn : Type 0 where
  continues : Client → List Effect → Turn
  returns : Client → List Effect → Turn
  crashes : Turn

-- What the surroundings decide: whether `conn.Write` succeeds, and whether the `select` takes the
-- case of the context that is done.
pub record Choice : Type 0 where
  pub write_works : Bool
  pub takes_done : Bool

-- `sendResponse` after `handleReadStateRequest`: the answer goes from the target to the sender and
-- bears the invoke id of the request.
unfoldable pub state_response : Client → ReadStateRequest → ReadStateResponse
state_response c req =
    let h = req.ams_header in
    let resp = new_read_state_response h.sender h.target no_error c.ads_state c.device_state in
    record resp { ams_header = record resp.ams_header { invoke_id = h.invoke_id } }

-- What the encoder made of the answer: a failing `Encode` or `conn.Write` ends the loop.
unfoldable pub on_answer :
    Choice → Client → Outcome ((ReadStateResponse × Option Error) × Buffer) → Turn
on_answer choice c panic = crashes
on_answer choice c (done ((_, some e), b)) = returns c []
on_answer choice c (done ((_, none), b)) =
    if choice.write_works then continues c (send_bytes b.bytes ∷ []) else returns c []

unfoldable pub handle_read_state_request : Choice → Client → ReadStateRequest → Turn
unfolding on_answer
handle_read_state_request choice c req =
    on_answer choice c (ReadState.encode_response (state_response c req) (new_buffer []))

-- A response: its handler is taken out of the map, and gets it unless the context is done.
unfoldable pub forward : Choice → Client → ℕ → Packet → Turn
forward choice c invoke_id pkt =
    let c' = record c { handler = erase invoke_id c.handler } in
    elim (lookup invoke_id c.handler) [
      | none ↦ continues c' []
      | some h ↦ if choice.takes_done then continues c' [] else continues c' (deliver h pkt ∷ [])
    ]

-- The second `switch` of `receive`, on the decoded packet.
unfoldable pub dispatch : Choice → Client → ℕ → Packet → Turn
unfolding forward handle_read_state_request
dispatch choice c invoke_id (read_state_request req) = handle_read_state_request choice c req
dispatch choice c invoke_id (device_notification req) =
    continues c (if c.has_callback then call_back req ∷ [] else [])
dispatch choice c invoke_id pkt = forward choice c invoke_id pkt

-- A packet that cannot be decoded ends the loop, unless it is a notification.
unfoldable pub on_decoded : Choice → Client → ℕ → Outcome (Packet × Option Error) → Turn
unfolding dispatch
on_decoded choice c invoke_id panic = crashes
on_decoded choice c invoke_id (done (pkt, none)) = dispatch choice c invoke_id pkt
on_decoded choice c invoke_id (done (device_notification req, some e)) = continues c []
on_decoded choice c invoke_id (done (pkt, some e)) = returns c []

unfoldable pub on_header :
    Choice → Client → List ℕ → Outcome ((Header × Option Error) × Buffer) → Turn
unfolding on_decoded
on_header choice c bytes panic = crashes
on_header choice c bytes (done ((hdr, some e), _)) = returns c []
on_header choice c bytes (done ((hdr, none), _)) = elim (classify hdr.ams_header) [
  | none ↦ continues c []
  | some decode ↦ on_decoded choice c hdr.ams_header.invoke_id (decode bytes)
]

-- One turn of the loop of `receive` on the bytes of one `conn.Read`.
unfoldable pub turn : Choice → Client → List ℕ → Turn
unfolding on_header
turn choice c bytes = on_header choice c bytes (Header.decode zero_header (new_buffer bytes))
