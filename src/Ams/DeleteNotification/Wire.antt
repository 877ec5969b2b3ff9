-- ===== src/Ams/DeleteNotification/Wire.antt =====
-- The wire format of the packets that delete a notification, and that their codecs follow it.
use goads.Base.{ℕ, ◌^◌, ◌<◌, none, List, [], ◌∷◌, concat}
use goads.Ams.Buffer.{put_uint32}
use goads.Ams.Buffer.Reads.{Reads}
use goads.Ams.Buffer.Writes.{Writes}
use goads.Ams.Header.Codec.{
  IsTcpHeader, IsAmsHeader, tcp_wire, ams_wire, header_writes, header_reads,
}
use goads.Ams.Codec.{Transfers}
use goads.Ams.DeleteNotification.{
  DeleteNotificationRequest, stamp_request, encode_request, decode_request,
  DeleteNotificationResponse, stamp_response, encode_response, decode_response,
}

pub record IsDeleteNotificationRequest (r : DeleteNotificationRequest) : Type 0 where
  pub tcp_header : IsTcpHeader r.tcp_header
  pub ams_header : IsAmsHeader r.ams_header
  pub notification_handle : r.notification_handle < 2 ^ 32

unfoldable pub request_wire : DeleteNotificationRequest → List ℕ
request_wire r =
    concat (tcp_wire r.tcp_header ∷ ams_wire r.ams_header ∷ put_uint32 r.notification_handle ∷ [])

Writes-request :
    (r : DeleteNotificationRequest)
    → Writes (encode_request r) (request_wire (stamp_request r)) ((stamp_request r), none)
unfolding encode_request request_wire
Writes-request r = search (header_writes) depth 20

Reads-request :
    (z r : DeleteNotificationRequest)
    → IsDeleteNotificationRequest r
    → Reads (decode_request z) (request_wire r) (r, none)
unfolding decode_request request_wire
Reads-request z r v =
    search (header_reads, v.tcp_header, v.ams_header, v.notification_handle) depth 20

-- A request to delete a notification whose fields, once `Encode` has set the lengths and the command id, fit their Go types is
-- encoded as the wire format of those fields, which the receiver then holds, and decoded from it.
pub delete_notification_request-Transfers :
    (z r : DeleteNotificationRequest) (b rest : List ℕ)
    → IsDeleteNotificationRequest (stamp_request r)
    → Transfers encode_request decode_request
        (request_wire (stamp_request r))
        z
        r
        (stamp_request r)
        b
        rest
delete_notification_request-Transfers z r b rest v =
    ((Writes-request r).run b, (Reads-request z (stamp_request r) v).run rest)

pub record IsDeleteNotificationResponse (r : DeleteNotificationResponse) : Type 0 where
  pub tcp_header : IsTcpHeader r.tcp_header
  pub ams_header : IsAmsHeader r.ams_header
  pub result : r.result < 2 ^ 32

unfoldable pub response_wire : DeleteNotificationResponse → List ℕ
response_wire r = concat (tcp_wire r.tcp_header ∷ ams_wire r.ams_header ∷ put_uint32 r.result ∷ [])

Writes-response :
    (r : DeleteNotificationResponse)
    → Writes (encode_response r) (response_wire (stamp_response r)) ((stamp_response r), none)
unfolding encode_response response_wire
Writes-response r = search (header_writes) depth 20

pub Reads-response :
    (z r : DeleteNotificationResponse)
    → IsDeleteNotificationResponse r
    → Reads (decode_response z) (response_wire r) (r, none)
unfolding decode_response response_wire
Reads-response z r v = search (header_reads, v.tcp_header, v.ams_header, v.result) depth 20

-- A response to that request whose fields, once `Encode` has set the lengths, the command id and the flag, fit their Go types is
-- encoded as the wire format of those fields, which the receiver then holds, and decoded from it.
pub delete_notification_response-Transfers :
    (z r : DeleteNotificationResponse) (b rest : List ℕ)
    → IsDeleteNotificationResponse (stamp_response r)
    → Transfers encode_response decode_response
        (response_wire (stamp_response r))
        z
        r
        (stamp_response r)
        b
        rest
delete_notification_response-Transfers z r b rest v =
    ((Writes-response r).run b, (Reads-response z (stamp_response r) v).run rest)

-- The codecs of the two DeleteDeviceNotification packets: a request and a response whose fields
-- fit their Go types, once `Encode` has set the lengths, the command id and the response's flag,
-- are each encoded as the wire format of those fields, which the receiver of `Encode` then holds,
-- and decoded from it, whatever stands before and behind.
delete_notification-Transfers :
    (from_request request : DeleteNotificationRequest)
    (from_response response : DeleteNotificationResponse) (b rest : List ℕ)
    → IsDeleteNotificationRequest (stamp_request request)
    → IsDeleteNotificationResponse (stamp_response response)
    → (Transfers encode_request decode_request
        (request_wire (stamp_request request))
        from_request
        request
        (stamp_request request)
        b
        rest)
      × (Transfers encode_response decode_response
          (response_wire (stamp_response response))
          from_response
          response
          (stamp_response response)
          b
          rest)
delete_notification-Transfers from_request request from_response response b rest request_valid
      response_valid =
    (
      delete_notification_request-Transfers from_request request b rest request_valid,
      delete_notification_response-Transfers from_response response b rest response_valid,
    )
