-- ===== src/Tests/Clients.antt =====
-- A client that waits for the answer to one Read request, its methods, and the life of `receive`.
use goads.Base.{
  length, ℕ, ◌+◌, arith, ◌≤◌, ◌≡◌, ◌==◌, ◌&&◌, if◌then◌else◌, refl, List, [], ◌∷◌, true, false,
  Option, some, none,
}
use goads.Base.Assoc.{lookup}
use goads.Ams.Constants.{has_state, state_response}
use goads.Ams.Packet.{
  classify, read_response, read_state_request, decode_device_notification,
  decode_read_state_request,
}
use goads.Ams.Packet.Classify.{classify_lem, response_decoder}
use goads.Ams.Packet.Wire.{packet_wire, IsPacket}
use goads.Client.{Client, Choice}
use goads.Client.Life.{receive}
use goads.Client.Life.States.{Shows, receive-Shows}
use goads.Ams.Constants.{ads_state_run}
use goads.Ams.ReadState.Wire as ReadStateWire
use goads.Ams.Read.Wire as ReadWire
use goads.Tests.States.{read_state_request_data, read_state_request_data-IsReadStateRequest}
use goads.Client.Send.{read_as, fresh_id}
use goads.Client.Trace.{delivered, Event, arrives, sends, run, delivered_bound}
use goads.Client.Methods.{Method, Connection, call_method}
use goads.Client.Methods.Packets.{sent_as, IsRequest}
use goads.Client.Methods.Arriving.{Comes, nothing_else, a_question, another}
use goads.Client.Methods.Replies.{Ready, call_method-returns, call_method-times_out}
use goads.Ams.Header.Codec.{tcp_wire, ams_wire, addr_wire}
use goads.Ams.Buffer.{put_uint16, put_uint32}
use goads.Link.{ok, failed}
use goads.Ams.Read.{ReadResponse}
use goads.Tests.Data.{ams, tcp-IsTcpHeader, ams-IsAmsHeader}
use goads.Tests.Reads.{
  read_request_data, read_response_data, read_response_data-IsReadResponse,
  read_request_data-IsReadRequest,
}

abbrev idle : Client
idle = record {
  next_invoke_id = 76;
  handler = (5, 1) ∷ [];
  ads_state = 5;
  device_state = 0;
  has_callback = false;
}

abbrev pub willing : Choice
willing = record { write_works = true; takes_done = false }

pub answer-IsPacket : IsPacket (read_response read_response_data)
answer-IsPacket = (read_response_data-IsReadResponse, refl, refl)

-- A request, its answer, and the same answer again.
abbrev twice : List Event
twice =
    sends true 3 (read_as read_request_data)
    ∷ arrives willing (packet_wire (read_response read_response_data))
    ∷ arrives willing (packet_wire (read_response read_response_data))
    ∷ []

delivered_bound_example : delivered 3 (run twice idle) ≤ 1
delivered_bound_example = delivered_bound 3 twice idle

classify_lem_example : classify (ams 2 5 77) ≡ (
    if 2 == 8
    then some decode_device_notification
    else if 2 == 4 && 5 == 4
    then some decode_read_state_request
    else if has_state (ams 2 5 77) state_response
    then response_decoder 2
    else none)
classify_lem_example = classify_lem (ams 2 5 77)

-- A response to another request, for which a channel stands in the handler map.
abbrev stray : ReadResponse
stray = record read_response_data { ams_header = ams 2 5 5 }

stray-IsPacket : IsPacket (read_response stray)
stray-IsPacket = (
  record {
    tcp_header = tcp-IsTcpHeader;
    ams_header = ams-IsAmsHeader 2 5 5 (omega arith) (omega arith) (omega arith);
    result = omega arith;
    length_fits = omega arith;
    payload = refl;
  },
  refl,
  refl,
)

-- A device that counts what it gets: it asks for the state of the client that sends it a request, and
-- responds to the request once it has got the state.
abbrev asking : List ℕ → ℕ → List (List ℕ) × ℕ
asking bytes n = (
  if n == 0
      then packet_wire (read_state_request read_state_request_data) ∷ []
      else packet_wire (read_response read_response_data) ∷ [],
  n + 1,
)

abbrev silent : List ℕ → ℕ → List (List ℕ) × ℕ
silent bytes n = ([], n + 1)

abbrev connected : Connection ℕ
connected = record {
  client = idle;
  made = 2;
  inbox = packet_wire (read_response stray) ∷ [];
  running = true;
  device = 0;
}

connected-Ready : Ready connected
unfolding lookup
connected-Ready k j e = ground arith

sent-IsRequest : IsRequest Method.read (sent_as Method.read read_request_data 77)
sent-IsRequest = read_request_data-IsReadRequest

stray_short : length (packet_wire (read_response stray)) ≤ 1500
unfolding ReadWire.response_wire tcp_wire put_uint16 put_uint32 ams_wire addr_wire
stray_short = omega arith

answer_short : length (packet_wire (read_response read_response_data)) ≤ 1500
unfolding ReadWire.response_wire tcp_wire put_uint16 put_uint32 ams_wire addr_wire
answer_short = omega arith

question_short : length (packet_wire (read_state_request read_state_request_data)) ≤ 1500
unfolding ReadStateWire.request_wire tcp_wire put_uint16 put_uint32 ams_wire addr_wire
question_short = omega arith

-- The stray response, the device's question, and its response behind the answer.
question-Comes :
    (let (answers, d) = asking (ReadWire.request_wire read_request_data) 0 in
      Comes asking 77 5 0 2
        (packet_wire (read_response stray) ∷ answers)
        d
        (packet_wire (read_response read_response_data) ∷ [])
        2)
question-Comes = another (read_response stray) 1 _ _ 1 2 stray-IsPacket stray_short (omega arith) (
    a_question read_state_request_data 0 [] _ 1 2
      (read_state_request_data-IsReadStateRequest, refl, refl) question_short (nothing_else _ 2))

call_method-returns_example :
    let (reply, w') = call_method asking willing 5 Method.read read_request_data connected in
    (reply ≡ ok read_response_data)
    × (w'.inbox ≡ [])
    × (w'.device ≡ 2)
    × (lookup (fresh_id connected.client) w'.client.handler ≡ none)
    × Ready w'
unfolding fresh_id
call_method-returns_example =
    call_method-returns asking willing 5 2 Method.read read_request_data read_response_data []
      connected 2 (omega arith) refl refl refl connected-Ready sent-IsRequest answer-IsPacket
      answer_short refl question-Comes

stray-Comes :
    (let (answers, d) = silent (ReadWire.request_wire read_request_data) 0 in
      Comes silent 77 5 0 1 (packet_wire (read_response stray) ∷ answers) d [] 1)
stray-Comes =
    another (read_response stray) 0 _ _ 1 1 stray-IsPacket stray_short (omega arith)
      (nothing_else [] 1)

call_method-times_out_example :
    let (reply, w') = call_method silent willing 5 Method.read read_request_data connected in
    (reply ≡ failed) × (lookup (fresh_id connected.client) w'.client.handler ≡ some 2)
unfolding fresh_id
call_method-times_out_example =
    call_method-times_out silent willing 5 1 Method.read read_request_data connected 1 refl refl
      connected-Ready sent-IsRequest stray-Comes

-- A request for the state, and then an error of the connection.
abbrev asked : List (Choice × Option (List ℕ))
asked = (willing, some (ReadStateWire.request_wire read_state_request_data)) ∷ (willing, none) ∷ []

receive-Shows_example : Shows ads_state_run ads_state_run (receive asked idle)
receive-Shows_example = receive-Shows asked idle
