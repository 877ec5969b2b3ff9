-- ===== src/Ams/Write/Wire.antt =====
-- The wire format of the Write packets, and that their codecs follow it.
use goads.Base.{ℕ, ◌^◌, ◌<◌, ◌≡◌, none, List, [], ◌∷◌, length, concat}
use goads.Ams.Buffer.{put_uint32}
use goads.Ams.Buffer.Reads.{Reads}
use goads.Ams.Buffer.Writes.{Writes}
use goads.Ams.Header.Codec.{
  IsTcpHeader, IsAmsHeader, tcp_wire, ams_wire, header_writes, header_reads,
}
use goads.Ams.Codec.{Transfers}
use goads.Ams.Write.{
  WriteRequest, encode_request, decode_request, WriteResponse, encode_response, decode_response,
}

pub record IsWriteRequest (r : WriteRequest) : Type 0 where
  pub tcp_header : IsTcpHeader r.tcp_header
  pub ams_header : IsAmsHeader r.ams_header
  pub index_group : r.index_group < 2 ^ 32
  pub index_offset : r.index_offset < 2 ^ 32
  pub length_fits : r.length < 2 ^ 32
  pub payload : length r.payload ≡ r.length

unfoldable pub request_wire : WriteRequest → List ℕ
request_wire r = concat (
    tcp_wire r.tcp_header
    ∷ ams_wire r.ams_header
    ∷ put_uint32 r.index_group
    ∷ put_uint32 r.index_offset
    ∷ put_uint32 r.length
    ∷ r.payload
    ∷ [])

Writes-request : (r : WriteRequest) → Writes (encode_request r) (request_wire r) (r, none)
unfolding encode_request request_wire
Writes-request r = search (header_writes) depth 20

Reads-request :
    (z r : WriteRequest) → IsWriteRequest r → Reads (decode_request z) (request_wire r) (r, none)
unfolding decode_request request_wire
Reads-request z r v =
    search
      (
        header_reads, v.tcp_header, v.ams_header, v.index_group, v.index_offset, v.length_fits,
        v.payload,
      )
      depth 20

-- A Write request whose fields fit their Go types, and whose length field is the length of its data,
-- is encoded as its wire format, behind whatever the buffer holds, and decoded from it, whatever
-- follows and whatever the receiver held.
pub write_request-Transfers :
    (z r : WriteRequest) (b rest : List ℕ)
    → IsWriteRequest r
    → Transfers encode_request decode_request (request_wire r) z r r b rest
write_request-Transfers z r b rest v = ((Writes-request r).run b, (Reads-request z r v).run rest)

pub record IsWriteResponse (r : WriteResponse) : Type 0 where
  pub tcp_header : IsTcpHeader r.tcp_header
  pub ams_header : IsAmsHeader r.ams_header
  pub result : r.result < 2 ^ 32

unfoldable pub response_wire : WriteResponse → List ℕ
response_wire r = concat (tcp_wire r.tcp_header ∷ ams_wire r.ams_header ∷ put_uint32 r.result ∷ [])

Writes-response : (r : WriteResponse) → Writes (encode_response r) (response_wire r) (r, none)
unfolding encode_response response_wire
Writes-response r = search (header_writes) depth 20

Reads-response :
    (z r : WriteResponse)
    → IsWriteResponse r
    → Reads (decode_response z) (response_wire r) (r, none)
unfolding decode_response response_wire
Reads-response z r v = search (header_reads, v.tcp_header, v.ams_header, v.result) depth 20

-- A Write response whose fields fit their Go types is encoded as its wire format and decoded from it.
pub write_response-Transfers :
    (z r : WriteResponse) (b rest : List ℕ)
    → IsWriteResponse r
    → Transfers encode_response decode_response (response_wire r) z r r b rest
write_response-Transfers z r b rest v = ((Writes-response r).run b, (Reads-response z r v).run rest)

-- The codecs of the two Write packets: a request and a response whose fields fit their Go types,
-- the request's length field the length of its data, are each encoded as their wire format,
-- behind whatever the buffer holds, and decoded from it, whatever follows and whatever the
-- receiver held.
write-Transfers :
    (from_request request : WriteRequest) (from_response response : WriteResponse) (b rest : List ℕ)
    → IsWriteRequest request
    → IsWriteResponse response
    → (Transfers encode_request decode_request
        (request_wire request)
        from_request
        request
        request
        b
        rest)
      × (Transfers encode_response decode_response
          (response_wire response)
          from_response
          response
          response
          b
          rest)
write-Transfers from_request request from_response response b rest request_valid response_valid = (
  write_request-Transfers from_request request b rest request_valid,
  write_response-Transfers from_response response b rest response_valid,
)
