-- ===== src/Ams/Read/Wire.antt =====
-- The wire format of the Read packets, and that their codecs follow it.
use goads.Base.{ℕ, ◌^◌, ◌<◌, ◌≡◌, none, List, [], ◌∷◌, length, concat}
use goads.Ams.Buffer.{put_uint32}
use goads.Ams.Buffer.Reads.{Reads}
use goads.Ams.Buffer.Writes.{Writes}
use goads.Ams.Header.Codec.{
  IsTcpHeader, IsAmsHeader, tcp_wire, ams_wire, header_writes, header_reads,
}
use goads.Ams.Codec.{Transfers}
use goads.Ams.Read.{
  ReadRequest, encode_request, decode_request, ReadResponse, encode_response, decode_response,
}

pub record IsReadRequest (r : ReadRequest) : Type 0 where
  pub tcp_header : IsTcpHeader r.tcp_header
  pub ams_header : IsAmsHeader r.ams_header
  pub index_group : r.index_group < 2 ^ 32
  pub index_offset : r.index_offset < 2 ^ 32
  pub length : r.length < 2 ^ 32

unfoldable pub request_wire : ReadRequest → List ℕ
request_wire r = concat (
    tcp_wire r.tcp_header
    ∷ ams_wire r.ams_header
    ∷ put_uint32 r.index_group
    ∷ put_uint32 r.index_offset
    ∷ put_uint32 r.length
    ∷ [])

pub Writes-request : (r : ReadRequest) → Writes (encode_request r) (request_wire r) (r, none)
unfolding encode_request request_wire
Writes-request r = search header_writes depth 20

Reads-request :
    (z r : ReadRequest) → IsReadRequest r → Reads (decode_request z) (request_wire r) (r, none)
unfolding decode_request request_wire
Reads-request z r v =
    search (header_reads, v.tcp_header, v.ams_header, v.index_group, v.index_offset, v.length) depth
      20

-- A Read request whose fields fit their Go types is encoded as its wire format, behind whatever
-- the buffer holds, and decoded from it, whatever follows and whatever the receiver held.
pub read_request-Transfers :
    (z r : ReadRequest) (b rest : List ℕ)
    → IsReadRequest r
    → Transfers encode_request decode_request (request_wire r) z r r b rest
read_request-Transfers z r b rest v = ((Writes-request r).run b, (Reads-request z r v).run rest)

pub record IsReadResponse (r : ReadResponse) : Type 0 where
  pub tcp_header : IsTcpHeader r.tcp_header
  pub ams_header : IsAmsHeader r.ams_header
  pub result : r.result < 2 ^ 32
  pub length_fits : r.length < 2 ^ 32
  pub payload : length r.payload ≡ r.length

unfoldable pub response_wire : ReadResponse → List ℕ
response_wire r = concat (
    tcp_wire r.tcp_header
    ∷ ams_wire r.ams_header
    ∷ put_uint32 r.result
    ∷ put_uint32 r.length
    ∷ r.payload
    ∷ [])

Writes-response :
    (r : ReadResponse) → IsReadResponse r → Writes (encode_response r) (response_wire r) (r, none)
unfolding encode_response response_wire
Writes-response r v = search (header_writes, v.payload) depth 20

Reads-response :
    (z r : ReadResponse) → IsReadResponse r → Reads (decode_response z) (response_wire r) (r, none)
unfolding decode_response response_wire
Reads-response z r v =
    search (header_reads, v.tcp_header, v.ams_header, v.result, v.length_fits, v.payload) depth 20

-- A Read response whose fields fit their Go types, and whose length field is the length of its
-- data, is encoded as its wire format and decoded from it.
pub read_response-Transfers :
    (z r : ReadResponse) (b rest : List ℕ)
    → IsReadResponse r
    → Transfers encode_response decode_response (response_wire r) z r r b rest
read_response-Transfers z r b rest v =
    ((Writes-response r v).run b, (Reads-response z r v).run rest)

-- The codecs of the two Read packets: a request and a response whose fields fit their Go types,
-- the response's length field the length of its data, are each encoded as their wire format,
-- behind whatever the buffer holds, and decoded from it, whatever follows and whatever the
-- receiver held.
read-Transfers :
    (from_request request : ReadRequest) (from_response response : ReadResponse) (b rest : List ℕ)
    → IsReadRequest request
    → IsReadResponse response
    → (Transfers encode_request decode_request
        (request_wire request)
        from_request
        request
        request
        b
        rest)
      × (Transfers encode_response decode_response
          (response_wire response)
          from_response
          response
          response
          b
          rest)
read-Transfers from_request request from_response response b rest request_valid response_valid = (
  read_request-Transfers from_request request b rest request_valid,
  read_response-Transfers from_response response b rest response_valid,
)
