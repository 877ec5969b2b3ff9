-- ===== src/Ams/ReadWrite/Wire.antt =====
-- The wire format of the ReadWrite packets, and that their codecs follow it.
use goads.Base.{ℕ, ◌^◌, ◌<◌, ◌≡◌, none, List, [], ◌∷◌, length, concat}
use goads.Ams.Buffer.{put_uint32}
use goads.Ams.Buffer.Reads.{Reads}
use goads.Ams.Buffer.Writes.{Writes}
use goads.Ams.Header.Codec.{
  IsTcpHeader, IsAmsHeader, tcp_wire, ams_wire, header_writes, header_reads,
}
use goads.Ams.Codec.{Transfers}
use goads.Ams.ReadWrite.{
  ReadWriteRequest, encode_request, decode_request, ReadWriteResponse, encode_response,
  decode_response,
}

pub record IsReadWriteRequest (r : ReadWriteRequest) : Type 0 where
  pub tcp_header : IsTcpHeader r.tcp_header
  pub ams_header : IsAmsHeader r.ams_header
  pub index_group : r.index_group < 2 ^ 32
  pub index_offset : r.index_offset < 2 ^ 32
  pub read_length : r.read_length < 2 ^ 32
  pub write_length : r.write_length < 2 ^ 32
  pub payload : length r.payload ≡ r.write_length

unfoldable pub request_wire : ReadWriteRequest → List ℕ
request_wire r = concat (
    tcp_wire r.tcp_header
    ∷ ams_wire r.ams_header
    ∷ put_uint32 r.index_group
    ∷ put_uint32 r.index_offset
    ∷ put_uint32 r.read_length
    ∷ put_uint32 r.write_length
    ∷ r.payload
    ∷ [])

Writes-request :
    (r : ReadWriteRequest)
    → IsReadWriteRequest r
    → Writes (encode_request r) (request_wire r) (r, none)
unfolding encode_request request_wire
Writes-request r v = search (header_writes, v.payload) depth 20

Reads-request :
    (z r : ReadWriteRequest)
    → IsReadWriteRequest r
    → Reads (decode_request z) (request_wire r) (r, none)
unfolding decode_request request_wire
Reads-request z r v =
    search
      (
        header_reads, v.tcp_header, v.ams_header, v.index_group, v.index_offset, v.read_length,
        v.write_length, v.payload,
      )
      depth 20

-- A ReadWrite request whose fields fit their Go types, and whose write length is the length of its
-- data, is encoded as its wire format, behind whatever the buffer holds, and decoded from it,
-- whatever follows and whatever the receiver held.
pub read_write_request-Transfers :
    (z r : ReadWriteRequest) (b rest : List ℕ)
    → IsReadWriteRequest r
    → Transfers encode_request decode_request (request_wire r) z r r b rest
read_write_request-Transfers z r b rest v =
    ((Writes-request r v).run b, (Reads-request z r v).run rest)

pub record IsReadWriteResponse (r : ReadWriteResponse) : Type 0 where
  pub tcp_header : IsTcpHeader r.tcp_header
  pub ams_header : IsAmsHeader r.ams_header
  pub result : r.result < 2 ^ 32
  pub length_fits : r.length < 2 ^ 32
  pub payload : length r.payload ≡ r.length

unfoldable pub response_wire : ReadWriteResponse → List ℕ
response_wire r = concat (
    tcp_wire r.tcp_header
    ∷ ams_wire r.ams_header
    ∷ put_uint32 r.result
    ∷ put_uint32 r.length
    ∷ r.payload
    ∷ [])

Writes-response :
    (r : ReadWriteResponse)
    → IsReadWriteResponse r
    → Writes (encode_response r) (response_wire r) (r, none)
unfolding encode_response response_wire
Writes-response r v = search (header_writes, v.payload) depth 20

Reads-response :
    (z r : ReadWriteResponse)
    → IsReadWriteResponse r
    → Reads (decode_response z) (response_wire r) (r, none)
unfolding decode_response response_wire
Reads-response z r v =
    search (header_reads, v.tcp_header, v.ams_header, v.result, v.length_fits, v.payload) depth 20

-- A ReadWrite response whose fields fit their Go types, and whose length field is the length of its
-- data, is encoded as its wire format and decoded from it.
pub read_write_response-Transfers :
    (z r : ReadWriteResponse) (b rest : List ℕ)
    → IsReadWriteResponse r
    → Transfers encode_response decode_response (response_wire r) z r r b rest
read_write_response-Transfers z r b rest v =
    ((Writes-response r v).run b, (Reads-response z r v).run rest)

-- The codecs of the two ReadWrite packets: a request and a response whose fields fit their Go
-- types, the length fields those of the data, are each encoded as their wire format, behind
-- whatever the buffer holds, and decoded from it, whatever follows and whatever the receiver
-- held.
read_write-Transfers :
    (from_request request : ReadWriteRequest) (from_response response : ReadWriteResponse)
    (b rest : List ℕ)
    → IsReadWriteRequest request
    → IsReadWriteResponse response
    → (Transfers encode_request decode_request
        (request_wire request)
        from_request
        request
        request
        b
        rest)
      × (Transfers encode_response decode_response
          (response_wire response)
          from_response
          response
          response
          b
          rest)
read_write-Transfers from_request request from_response response b rest request_valid
      response_valid =
    (
      read_write_request-Transfers from_request request b rest request_valid,
      read_write_response-Transfers from_response response b rest response_valid,
    )
