-- ===== src/Ams/ReadState/Wire.antt =====
-- The wire format of the ReadState packets, and that their codecs follow it.
use goads.Base.{ℕ, ◌^◌, ◌<◌, none, List, [], ◌∷◌, concat}
use goads.Ams.Buffer.{put_uint16, put_uint32}
use goads.Ams.Buffer.Reads.{Reads}
use goads.Ams.Buffer.Writes.{Writes}
use goads.Ams.Header.Codec.{
  IsTcpHeader, IsAmsHeader, tcp_wire, ams_wire, header_writes, header_reads,
}
use goads.Ams.Codec.{Transfers}
use goads.Ams.ReadState.{
  ReadStateRequest, encode_request, decode_request, ReadStateResponse, encode_response,
  decode_response,
}

pub record IsReadStateRequest (r : ReadStateRequest) : Type 0 where
  pub tcp_header : IsTcpHeader r.tcp_header
  pub ams_header : IsAmsHeader r.ams_header

unfoldable pub request_wire : ReadStateRequest → List ℕ
request_wire r = concat (tcp_wire r.tcp_header ∷ ams_wire r.ams_header ∷ [])

Writes-request : (r : ReadStateRequest) → Writes (encode_request r) (request_wire r) (r, none)
unfolding encode_request request_wire
Writes-request r = search (header_writes) depth 20

Reads-request :
    (z r : ReadStateRequest)
    → IsReadStateRequest r
    → Reads (decode_request z) (request_wire r) (r, none)
unfolding decode_request request_wire
Reads-request z r v = search (header_reads, v.tcp_header, v.ams_header) depth 20

-- A ReadState request whose headers fit their Go types is encoded as its wire format, behind whatever
-- the buffer holds, and decoded from it, whatever follows and whatever the receiver held.
pub read_state_request-Transfers :
    (z r : ReadStateRequest) (b rest : List ℕ)
    → IsReadStateRequest r
    → Transfers encode_request decode_request (request_wire r) z r r b rest
read_state_request-Transfers z r b rest v =
    ((Writes-request r).run b, (Reads-request z r v).run rest)

pub record IsReadStateResponse (r : ReadStateResponse) : Type 0 where
  pub tcp_header : IsTcpHeader r.tcp_header
  pub ams_header : IsAmsHeader r.ams_header
  pub result : r.result < 2 ^ 32
  pub ads_state : r.ads_state < 2 ^ 16
  pub device_state : r.device_state < 2 ^ 16

unfoldable pub response_wire : ReadStateResponse → List ℕ
response_wire r = concat (
    tcp_wire r.tcp_header
    ∷ ams_wire r.ams_header
    ∷ put_uint32 r.result
    ∷ put_uint16 r.ads_state
    ∷ put_uint16 r.device_state
    ∷ [])

pub Writes-response :
    (r : ReadStateResponse) → Writes (encode_response r) (response_wire r) (r, none)
unfolding encode_response response_wire
Writes-response r = search (header_writes) depth 20

Reads-response :
    (z r : ReadStateResponse)
    → IsReadStateResponse r
    → Reads (decode_response z) (response_wire r) (r, none)
unfolding decode_response response_wire
Reads-response z r v =
    search (header_reads, v.tcp_header, v.ams_header, v.result, v.ads_state, v.device_state) depth
      20

-- A ReadState response whose fields fit their Go types is encoded as its wire format and decoded
-- from it.
pub read_state_response-Transfers :
    (z r : ReadStateResponse) (b rest : List ℕ)
    → IsReadStateResponse r
    → Transfers encode_response decode_response (response_wire r) z r r b rest
read_state_response-Transfers z r b rest v =
    ((Writes-response r).run b, (Reads-response z r v).run rest)

-- The codecs of the two ReadState packets: a request and a response whose fields fit their Go
-- types are each encoded as their wire format, behind whatever the buffer holds, and decoded from
-- it, whatever follows and whatever the receiver held.
read_state-Transfers :
    (from_request request : ReadStateRequest) (from_response response : ReadStateResponse)
    (b rest : List ℕ)
    → IsReadStateRequest request
    → IsReadStateResponse response
    → (Transfers encode_request decode_request
        (request_wire request)
        from_request
        request
        request
        b
        rest)
      × (Transfers encode_response decode_response
          (response_wire response)
          from_response
          response
          response
          b
          rest)
read_state-Transfers from_request request from_response response b rest request_valid
      response_valid =
    (
      read_state_request-Transfers from_request request b rest request_valid,
      read_state_response-Transfers from_response response b rest response_valid,
    )
