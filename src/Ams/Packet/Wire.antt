-- ===== src/Ams/Packet/Wire.antt =====
-- The bytes of a packet that the client knows, and that its header and the packet are decoded from
-- them.
use goads.Base.{◌≡◌, refl, ap, ◌∙◌, true, none, some, Option, List, ℕ, [], ◌++◌, arith}
use mathlib.Core.List.{append-nil, append_assoc}
use goads.Ams.Outcome.{done, Error}
use goads.Ams.Buffer.{Action, new_buffer}
use goads.Ams.Buffer.Reads.{Reads, Reads-return_err}
use goads.Ams.Header.{TcpHeader, AmsHeader, Header}
use goads.Ams.Header
use goads.Ams.Header.Codec.{
  IsTcpHeader, IsAmsHeader, tcp_wire, ams_wire, Reads-tcp_then, Reads-ams_then,
}
use goads.Ams.Constants.{
  has_state, state_response, state_ads_command, cmd_ads_read_device_info, cmd_ads_read,
  cmd_ads_write, cmd_ads_read_write, cmd_ads_read_state, cmd_ads_device_notification,
  cmd_ads_add_device_notification, cmd_ads_delete_device_notification,
}
use goads.Ams.ReadDeviceInfo
use goads.Ams.ReadDeviceInfo.Wire.{IsReadDeviceInfoResponse}
use goads.Ams.ReadDeviceInfo.Wire as ReadDeviceInfoWire
use goads.Ams.Read
use goads.Ams.Read.Wire.{IsReadResponse}
use goads.Ams.Read.Wire as ReadWire
use goads.Ams.Write
use goads.Ams.Write.Wire.{IsWriteResponse}
use goads.Ams.Write.Wire as WriteWire
use goads.Ams.ReadWrite
use goads.Ams.ReadWrite.Wire.{IsReadWriteResponse}
use goads.Ams.ReadWrite.Wire as ReadWriteWire
use goads.Ams.ReadState
use goads.Ams.ReadState.Wire.{IsReadStateRequest}
use goads.Ams.ReadState.Wire as ReadStateWire
use goads.Ams.Notification
use goads.Ams.Notification.Wire.{IsDeviceNotification}
use goads.Ams.Notification.Wire as NotificationWire
use goads.Ams.AddNotification
use goads.Ams.AddNotification.Wire.{IsAddNotificationResponse}
use goads.Ams.AddNotification.Wire as AddNotificationWire
use goads.Ams.DeleteNotification
use goads.Ams.DeleteNotification.Wire.{IsDeleteNotificationResponse}
use goads.Ams.DeleteNotification.Wire as DeleteNotificationWire
use goads.Ams.Packet.{
  Packet, wrap, Decoder, classify, read_device_info_response, read_response, write_response,
  read_write_response, read_state_request, device_notification, add_notification_response,
  delete_notification_response, decode_read_device_info_response, zero_read_device_info_response,
  decode_read_response, zero_read_response, decode_write_response, zero_write_response,
  decode_read_write_response, zero_read_write_response, decode_read_state_request,
  zero_read_state_request, decode_device_notification, zero_device_notification,
  decode_add_notification_response, zero_add_notification_response,
  decode_delete_notification_response, zero_delete_notification_response,
}
use goads.Ams.Packet.Classify.{classify_lem}

abbrev pub tcp_of : Packet → TcpHeader
tcp_of (read_device_info_response r) = r.tcp_header
tcp_of (read_response r) = r.tcp_header
tcp_of (write_response r) = r.tcp_header
tcp_of (read_write_response r) = r.tcp_header
tcp_of (read_state_request r) = r.tcp_header
tcp_of (device_notification r) = r.tcp_header
tcp_of (add_notification_response r) = r.tcp_header
tcp_of (delete_notification_response r) = r.tcp_header

abbrev pub ams_of : Packet → AmsHeader
ams_of (read_device_info_response r) = r.ams_header
ams_of (read_response r) = r.ams_header
ams_of (write_response r) = r.ams_header
ams_of (read_write_response r) = r.ams_header
ams_of (read_state_request r) = r.ams_header
ams_of (device_notification r) = r.ams_header
ams_of (add_notification_response r) = r.ams_header
ams_of (delete_notification_response r) = r.ams_header

abbrev pub packet_wire : Packet → List ℕ
packet_wire (read_device_info_response r) = ReadDeviceInfoWire.response_wire r
packet_wire (read_response r) = ReadWire.response_wire r
packet_wire (write_response r) = WriteWire.response_wire r
packet_wire (read_write_response r) = ReadWriteWire.response_wire r
packet_wire (read_state_request r) = ReadStateWire.request_wire r
packet_wire (device_notification r) = NotificationWire.notification_wire r
packet_wire (add_notification_response r) = AddNotificationWire.response_wire r
packet_wire (delete_notification_response r) = DeleteNotificationWire.response_wire r

-- The fields fit their types, and the header has the command id and the flags of the packet.
abbrev pub IsPacket : Packet → Type 0
IsPacket (read_device_info_response r) =
    IsReadDeviceInfoResponse r
    × (r.ams_header.cmd_id ≡ cmd_ads_read_device_info)
    × (has_state r.ams_header state_response ≡ true)
IsPacket (read_response r) =
    IsReadResponse r
    × (r.ams_header.cmd_id ≡ cmd_ads_read)
    × (has_state r.ams_header state_response ≡ true)
IsPacket (write_response r) =
    IsWriteResponse r
    × (r.ams_header.cmd_id ≡ cmd_ads_write)
    × (has_state r.ams_header state_response ≡ true)
IsPacket (read_write_response r) =
    IsReadWriteResponse r
    × (r.ams_header.cmd_id ≡ cmd_ads_read_write)
    × (has_state r.ams_header state_response ≡ true)
IsPacket (read_state_request r) =
    IsReadStateRequest r
    × (r.ams_header.cmd_id ≡ cmd_ads_read_state)
    × (r.ams_header.state_flags ≡ state_ads_command)
IsPacket (device_notification r) =
    IsDeviceNotification r × (r.ams_header.cmd_id ≡ cmd_ads_device_notification)
IsPacket (add_notification_response r) =
    IsAddNotificationResponse r
    × (r.ams_header.cmd_id ≡ cmd_ads_add_device_notification)
    × (has_state r.ams_header state_response ≡ true)
IsPacket (delete_notification_response r) =
    IsDeleteNotificationResponse r
    × (r.ams_header.cmd_id ≡ cmd_ads_delete_device_notification)
    × (has_state r.ams_header state_response ≡ true)

Reads-header :
    (z : Header) (t : TcpHeader) (a : AmsHeader)
    → IsTcpHeader t
    → IsAmsHeader a
    → Reads
        (Header.decode z)
        (tcp_wire t ++ (ams_wire a ++ []))
        (record { tcp_header = t; ams_header = a }, none)
unfolding Header.decode
Reads-header z t a ht ha = Reads-tcp_then _ _ _ ht (Reads-ams_then _ _ _ ha (Reads-return_err _))

headers_read :
    (z : Header) (t : TcpHeader) (a : AmsHeader) (body : List ℕ)
    → IsTcpHeader t
    → IsAmsHeader a
    → Header.decode z (new_buffer (tcp_wire t ++ (ams_wire a ++ body)))
      ≡ done ((record { tcp_header = t; ams_header = a }, none), new_buffer body)
headers_read z t a body ht ha = simp append_assoc at ((Reads-header z t a ht ha).run body)

-- A decoder that reads `w` with anything behind it reads `w` alone.
whole :
    {X : Type 0} (m : Action (X × Option Error)) (c : X → Packet) (w : List ℕ) {x : X}
    → m (new_buffer (w ++ [])) ≡ done ((x, none), new_buffer [])
    → wrap c (m (new_buffer w)) ≡ done (c x, none)
whole m c w h = ap (wrap c) (rw append-nil at h)

-- The packet begins with its headers.
pub packet_headers :
    (z : Header) (p : Packet)
    → IsPacket p
    → (body : List ℕ) × (Header.decode z (new_buffer (packet_wire p))
        ≡ done ((record { tcp_header = tcp_of p; ams_header = ams_of p }, none), new_buffer body))
unfolding ReadDeviceInfoWire.response_wire ReadWire.response_wire WriteWire.response_wire
    ReadWriteWire.response_wire ReadStateWire.request_wire NotificationWire.notification_wire
    AddNotificationWire.response_wire DeleteNotificationWire.response_wire
packet_headers z (read_device_info_response r) v =
    (_, headers_read z _ _ _ v.0.tcp_header v.0.ams_header)
packet_headers z (read_response r) v = (_, headers_read z _ _ _ v.0.tcp_header v.0.ams_header)
packet_headers z (write_response r) v = (_, headers_read z _ _ _ v.0.tcp_header v.0.ams_header)
packet_headers z (read_write_response r) v = (_, headers_read z _ _ _ v.0.tcp_header v.0.ams_header)
packet_headers z (read_state_request r) v = (_, headers_read z _ _ _ v.0.tcp_header v.0.ams_header)
packet_headers z (device_notification r) v = (_, headers_read z _ _ _ v.0.tcp_header v.0.ams_header)
packet_headers z (add_notification_response r) v =
    (_, headers_read z _ _ _ v.0.tcp_header v.0.ams_header)
packet_headers z (delete_notification_response r) v =
    (_, headers_read z _ _ _ v.0.tcp_header v.0.ams_header)

-- `receive` picks a decoder that turns the packet's bytes into the packet.
pub packet_decodes :
    (p : Packet)
    → IsPacket p
    → (decode : Decoder) × (classify (ams_of p) ≡ some decode)
      × (decode (packet_wire p) ≡ done (p, none))
unfolding decode_read_device_info_response decode_read_response decode_write_response
    decode_read_write_response decode_read_state_request decode_device_notification
    decode_add_notification_response decode_delete_notification_response
packet_decodes (read_device_info_response r) v = (
  decode_read_device_info_response,
  classify_lem r.ams_header ∙ ground arith,
  whole (ReadDeviceInfo.decode_response zero_read_device_info_response) read_device_info_response
      (ReadDeviceInfoWire.response_wire r)
      (ReadDeviceInfoWire.read_device_info_response-Transfers zero_read_device_info_response r [] []
        v.0 refl).1,
)
packet_decodes (read_response r) v = (
  decode_read_response,
  classify_lem r.ams_header ∙ ground arith,
  whole (Read.decode_response zero_read_response) read_response (ReadWire.response_wire r)
      (ReadWire.read_response-Transfers zero_read_response r [] [] v.0).1,
)
packet_decodes (write_response r) v = (
  decode_write_response,
  classify_lem r.ams_header ∙ ground arith,
  whole (Write.decode_response zero_write_response) write_response (WriteWire.response_wire r)
      (WriteWire.write_response-Transfers zero_write_response r [] [] v.0).1,
)
packet_decodes (read_write_response r) v = (
  decode_read_write_response,
  classify_lem r.ams_header ∙ ground arith,
  whole (ReadWrite.decode_response zero_read_write_response) read_write_response
      (ReadWriteWire.response_wire r)
      (ReadWriteWire.read_write_response-Transfers zero_read_write_response r [] [] v.0).1,
)
packet_decodes (read_state_request r) v = (
  decode_read_state_request,
  classify_lem r.ams_header ∙ ground arith,
  whole (ReadState.decode_request zero_read_state_request) read_state_request
      (ReadStateWire.request_wire r)
      (ReadStateWire.read_state_request-Transfers zero_read_state_request r [] [] v.0).1,
)
packet_decodes (device_notification r) v = (
  decode_device_notification,
  classify_lem r.ams_header ∙ ground arith,
  whole (Notification.decode zero_device_notification) device_notification
      (NotificationWire.notification_wire r)
      (NotificationWire.notification-Transfers zero_device_notification r [] [] v.0).1,
)
packet_decodes (add_notification_response r) v = (
  decode_add_notification_response,
  classify_lem r.ams_header ∙ ground arith,
  whole (AddNotification.decode_response zero_add_notification_response) add_notification_response
      (AddNotificationWire.response_wire r)
      ((AddNotificationWire.Reads-response zero_add_notification_response r v.0).run []),
)
packet_decodes (delete_notification_response r) v = (
  decode_delete_notification_response,
  classify_lem r.ams_header ∙ ground arith,
  whole (DeleteNotification.decode_response zero_delete_notification_response)
      delete_notification_response (DeleteNotificationWire.response_wire r)
      ((DeleteNotificationWire.Reads-response zero_delete_notification_response r v.0).run []),
)
