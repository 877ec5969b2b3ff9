-- ===== src/Ams/ReadDeviceInfo/Wire.antt =====
-- The wire format of the ReadDeviceInfo packets, and that their codecs follow it.
use goads.Base.{ℕ, ◌^◌, ◌<◌, ◌≡◌, none, List, [], ◌∷◌, length, concat}
use goads.Ams.Buffer.{put_uint16, put_uint32}
use goads.Ams.Buffer.Reads.{Reads}
use goads.Ams.Buffer.Writes.{Writes}
use goads.Ams.Header.Codec.{
  IsTcpHeader, IsAmsHeader, tcp_wire, ams_wire, header_writes, header_reads,
}
use goads.Ams.Codec.{Transfers}
use goads.Ams.ReadDeviceInfo.{
  ReadDeviceInfoRequest, encode_request, decode_request, ReadDeviceInfoResponse, encode_response,
  decode_response,
}

pub record IsReadDeviceInfoRequest (r : ReadDeviceInfoRequest) : Type 0 where
  pub tcp_header : IsTcpHeader r.tcp_header
  pub ams_header : IsAmsHeader r.ams_header

unfoldable pub request_wire : ReadDeviceInfoRequest → List ℕ
request_wire r = concat (tcp_wire r.tcp_header ∷ ams_wire r.ams_header ∷ [])

Writes-request : (r : ReadDeviceInfoRequest) → Writes (encode_request r) (request_wire r) (r, none)
unfolding encode_request request_wire
Writes-request r = search (header_writes) depth 20

Reads-request :
    (z r : ReadDeviceInfoRequest)
    → IsReadDeviceInfoRequest r
    → Reads (decode_request z) (request_wire r) (r, none)
unfolding decode_request request_wire
Reads-request z r v = search (header_reads, v.tcp_header, v.ams_header) depth 20

-- A ReadDeviceInfo request whose headers fit their Go types is encoded as its wire format, behind
-- whatever the buffer holds, and decoded from it, whatever follows and whatever the receiver held.
pub read_device_info_request-Transfers :
    (z r : ReadDeviceInfoRequest) (b rest : List ℕ)
    → IsReadDeviceInfoRequest r
    → Transfers encode_request decode_request (request_wire r) z r r b rest
read_device_info_request-Transfers z r b rest v =
    ((Writes-request r).run b, (Reads-request z r v).run rest)

pub record IsReadDeviceInfoResponse (r : ReadDeviceInfoResponse) : Type 0 where
  pub tcp_header : IsTcpHeader r.tcp_header
  pub ams_header : IsAmsHeader r.ams_header
  pub result : r.result < 2 ^ 32
  pub build_version : r.build_version < 2 ^ 16
  pub device_name : length r.device_name ≡ 16

unfoldable pub response_wire : ReadDeviceInfoResponse → List ℕ
response_wire r = concat (
    tcp_wire r.tcp_header
    ∷ ams_wire r.ams_header
    ∷ put_uint32 r.result
    ∷ (r.major_version ∷ [])
    ∷ (r.minor_version ∷ [])
    ∷ put_uint16 r.build_version
    ∷ r.device_name
    ∷ [])

Writes-response :
    (r : ReadDeviceInfoResponse) → Writes (encode_response r) (response_wire r) (r, none)
unfolding encode_response response_wire
Writes-response r = search (header_writes) depth 20

Reads-response :
    (z r : ReadDeviceInfoResponse)
    → IsReadDeviceInfoResponse r
    → length z.device_name ≡ 16
    → Reads (decode_response z) (response_wire r) (r, none)
unfolding decode_response response_wire
Reads-response z r v k =
    search (header_reads, v.tcp_header, v.ams_header, v.result, v.build_version, v.device_name, k)
      depth 20

-- A ReadDeviceInfo response whose fields fit their Go types, the name 16 bytes long, is encoded as its
-- wire format and decoded from it into any receiver, whose name has 16 bytes too.
pub read_device_info_response-Transfers :
    (z r : ReadDeviceInfoResponse) (b rest : List ℕ)
    → IsReadDeviceInfoResponse r
    → length z.device_name ≡ 16
    → Transfers encode_response decode_response (response_wire r) z r r b rest
read_device_info_response-Transfers z r b rest v k =
    ((Writes-response r).run b, (Reads-response z r v k).run rest)

-- The codecs of the two ReadDeviceInfo packets: a request and a response whose fields fit their
-- Go types, the device's name 16 bytes long in packet and receiver, are each encoded as their
-- wire format, behind whatever the buffer holds, and decoded from it, whatever follows and
-- whatever the receiver held.
read_device_info-Transfers :
    (from_request request : ReadDeviceInfoRequest) (from_response response : ReadDeviceInfoResponse)
    (b rest : List ℕ)
    → IsReadDeviceInfoRequest request
    → IsReadDeviceInfoResponse response
    → length from_response.device_name ≡ 16
    → (Transfers encode_request decode_request
        (request_wire request)
        from_request
        request
        request
        b
        rest)
      × (Transfers encode_response decode_response
          (response_wire response)
          from_response
          response
          response
          b
          rest)
read_device_info-Transfers from_request request from_response response b rest request_valid
      response_valid response_room =
    (
      read_device_info_request-Transfers from_request request b rest request_valid,
      read_device_info_response-Transfers from_response response b rest response_valid
          response_room,
    )
