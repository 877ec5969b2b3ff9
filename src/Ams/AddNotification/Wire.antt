-- ===== src/Ams/AddNotification/Wire.antt =====
-- The wire format of the packets that add a notification, and that their codecs follow it.
use goads.Base.{ℕ, ◌^◌, ◌<◌, ◌≡◌, none, List, [], ◌∷◌, length, concat}
use goads.Ams.Buffer.{put_uint32}
use goads.Ams.Buffer.Reads.{Reads}
use goads.Ams.Buffer.Writes.{Writes}
use goads.Ams.Header.Codec.{
  IsTcpHeader, IsAmsHeader, tcp_wire, ams_wire, header_writes, header_reads,
}
use goads.Ams.Codec.{Transfers}
use goads.Ams.AddNotification.{
  AddNotificationRequest, stamp_request, encode_request, decode_request, AddNotificationResponse,
  stamp_response, encode_response, decode_response,
}

pub record IsAddNotificationRequest (r : AddNotificationRequest) : Type 0 where
  pub tcp_header : IsTcpHeader r.tcp_header
  pub ams_header : IsAmsHeader r.ams_header
  pub index_group : r.index_group < 2 ^ 32
  pub index_off : r.index_off < 2 ^ 32
  pub length_fits : r.length < 2 ^ 32
  pub trans_mode : r.trans_mode < 2 ^ 32
  pub max_delay : r.max_delay < 2 ^ 32
  pub cycle_time : r.cycle_time < 2 ^ 32
  pub reserved : length r.reserved ≡ 16

unfoldable pub request_wire : AddNotificationRequest → List ℕ
request_wire r = concat (
    tcp_wire r.tcp_header
    ∷ ams_wire r.ams_header
    ∷ put_uint32 r.index_group
    ∷ put_uint32 r.index_off
    ∷ put_uint32 r.length
    ∷ put_uint32 r.trans_mode
    ∷ put_uint32 r.max_delay
    ∷ put_uint32 r.cycle_time
    ∷ r.reserved
    ∷ [])

Writes-request :
    (r : AddNotificationRequest)
    → IsAddNotificationRequest (stamp_request r)
    → Writes (encode_request r) (request_wire (stamp_request r)) ((stamp_request r), none)
unfolding encode_request request_wire
Writes-request r v = search (header_writes, v.reserved) depth 20

Reads-request :
    (z r : AddNotificationRequest)
    → IsAddNotificationRequest r
    → length z.reserved ≡ 16
    → Reads (decode_request z) (request_wire r) (r, none)
unfolding decode_request request_wire
Reads-request z r v k =
    search
      (
        header_reads, v.tcp_header, v.ams_header, v.index_group, v.index_off, v.length_fits,
        v.trans_mode, v.max_delay, v.cycle_time, v.reserved, k,
      )
      depth 20

-- A request to add a notification whose fields, once `Encode` has set the lengths and the command id, fit their Go types is
-- encoded as the wire format of those fields, which the receiver then holds, and decoded from it.
-- The reserved bytes are 16, in the receiver too.
pub add_notification_request-Transfers :
    (z r : AddNotificationRequest) (b rest : List ℕ)
    → IsAddNotificationRequest (stamp_request r)
    → length z.reserved ≡ 16
    → Transfers encode_request decode_request
        (request_wire (stamp_request r))
        z
        r
        (stamp_request r)
        b
        rest
add_notification_request-Transfers z r b rest v k =
    ((Writes-request r v).run b, (Reads-request z (stamp_request r) v k).run rest)

pub record IsAddNotificationResponse (r : AddNotificationResponse) : Type 0 where
  pub tcp_header : IsTcpHeader r.tcp_header
  pub ams_header : IsAmsHeader r.ams_header
  pub result : r.result < 2 ^ 32
  pub notification_handle : r.notification_handle < 2 ^ 32

unfoldable pub response_wire : AddNotificationResponse → List ℕ
response_wire r = concat (
    tcp_wire r.tcp_header
    ∷ ams_wire r.ams_header
    ∷ put_uint32 r.result
    ∷ put_uint32 r.notification_handle
    ∷ [])

Writes-response :
    (r : AddNotificationResponse)
    → Writes (encode_response r) (response_wire (stamp_response r)) ((stamp_response r), none)
unfolding encode_response response_wire
Writes-response r = search (header_writes) depth 20

pub Reads-response :
    (z r : AddNotificationResponse)
    → IsAddNotificationResponse r
    → Reads (decode_response z) (response_wire r) (r, none)
unfolding decode_response response_wire
Reads-response z r v =
    search (header_reads, v.tcp_header, v.ams_header, v.result, v.notification_handle) depth 20

-- A response to that request whose fields, once `Encode` has set the lengths, the command id and the flag, fit their Go types is
-- encoded as the wire format of those fields, which the receiver then holds, and decoded from it.
pub add_notification_response-Transfers :
    (z r : AddNotificationResponse) (b rest : List ℕ)
    → IsAddNotificationResponse (stamp_response r)
    → Transfers encode_response decode_response
        (response_wire (stamp_response r))
        z
        r
        (stamp_response r)
        b
        rest
add_notification_response-Transfers z r b rest v =
    ((Writes-response r).run b, (Reads-response z (stamp_response r) v).run rest)

-- The codecs of the two AddDeviceNotification packets: a request and a response whose fields fit
-- their Go types, once `Encode` has set the lengths, the command id and the response's flag, the
-- reserved bytes 16 in packet and receiver, are each encoded as the wire format of those fields,
-- which the receiver of `Encode` then holds, and decoded from it, whatever stands before and
-- behind.
add_notification-Transfers :
    (from_request request : AddNotificationRequest)
    (from_response response : AddNotificationResponse) (b rest : List ℕ)
    → IsAddNotificationRequest (stamp_request request)
    → length from_request.reserved ≡ 16
    → IsAddNotificationResponse (stamp_response response)
    → (Transfers encode_request decode_request
        (request_wire (stamp_request request))
        from_request
        request
        (stamp_request request)
        b
        rest)
      × (Transfers encode_response decode_response
          (response_wire (stamp_response response))
          from_response
          response
          (stamp_response response)
          b
          rest)
add_notification-Transfers from_request request from_response response b rest request_valid
      request_room response_valid =
    (
      add_notification_request-Transfers from_request request b rest request_valid request_room,
      add_notification_response-Transfers from_response response b rest response_valid,
    )
