-- ===== src/Ams/Requests.antt =====
-- The constructors of the requests of package ams that carry an index group, data or a handle.
use goads.Base.{ℕ, ◌+◌, ◌^◌, ◌<◌, List, length, arith}
use goads.Ams.Addr.{Addr}
use goads.Ams.Header.Codec.{IsAddr}
use goads.Ams.Framing.{Frames}
use goads.Ams.Read.{new_read_request}
use goads.Ams.Read.Wire as ReadWire
use goads.Ams.Read.Wire.{IsReadRequest}
use goads.Ams.Read.Framing.{new_read_request-Frames}
use goads.Ams.Write.{new_write_request}
use goads.Ams.Write.Wire as WriteWire
use goads.Ams.Write.Wire.{IsWriteRequest}
use goads.Ams.Write.Framing.{new_write_request-Frames}
use goads.Ams.ReadWrite.{new_read_write_request}
use goads.Ams.ReadWrite.Wire as ReadWriteWire
use goads.Ams.ReadWrite.Wire.{IsReadWriteRequest}
use goads.Ams.ReadWrite.Framing.{new_read_write_request-Frames}
use goads.Ams.AddNotification as AddNotificationPacket
use goads.Ams.AddNotification.{new_add_notification_request}
use goads.Ams.AddNotification.Wire as AddNotificationWire
use goads.Ams.AddNotification.Wire.{IsAddNotificationRequest}
use goads.Ams.AddNotification.Framing.{new_add_notification_request-Frames}
use goads.Ams.DeleteNotification as DeleteNotificationPacket
use goads.Ams.DeleteNotification.{new_delete_notification_request}
use goads.Ams.DeleteNotification.Wire as DeleteNotificationWire
use goads.Ams.DeleteNotification.Wire.{IsDeleteNotificationRequest}
use goads.Ams.DeleteNotification.Framing.{new_delete_notification_request-Frames}

-- A new Read, Write or ReadWrite request, and a new request to add or to delete a notification once
-- `Encode` has set its lengths, between two addresses, with numbers of 32 bits and data that leaves
-- room in 32 bits for 48 more bytes, is one that its codec transfers, and its TCP header announces the
-- bytes behind it, its AMS header the bytes behind both headers.
pub new_requests-Frames :
    {target sender : Addr} (t : IsAddr target) (s : IsAddr sender)
    (group offset size mode delay cycle handle : ℕ) (payload : List ℕ)
    → group < 2 ^ 32
    → offset < 2 ^ 32
    → size < 2 ^ 32
    → mode < 2 ^ 32
    → delay < 2 ^ 32
    → cycle < 2 ^ 32
    → handle < 2 ^ 32
    → length payload + 48 < 2 ^ 32
    → let r = new_read_request target sender group offset size in
      let w = new_write_request target sender group offset payload in
      let rw_request = new_read_write_request target sender group offset size payload in
      let a =
        AddNotificationPacket.stamp_request
          (new_add_notification_request target sender group offset size mode delay cycle) in
      let d =
        DeleteNotificationPacket.stamp_request
          (new_delete_notification_request target sender handle) in
      (IsReadRequest r × Frames r.tcp_header r.ams_header (ReadWire.request_wire r))
      × (IsWriteRequest w × Frames w.tcp_header w.ams_header (WriteWire.request_wire w))
      × (IsReadWriteRequest rw_request
          × Frames rw_request.tcp_header rw_request.ams_header
              (ReadWriteWire.request_wire rw_request))
      × (IsAddNotificationRequest a
          × Frames a.tcp_header a.ams_header (AddNotificationWire.request_wire a))
      × (IsDeleteNotificationRequest d
          × Frames d.tcp_header d.ams_header (DeleteNotificationWire.request_wire d))
new_requests-Frames t s group offset size mode delay cycle handle payload g o n m d c h room = (
  new_read_request-Frames t s group offset size g o n,
  new_write_request-Frames t s group offset payload g o (omega arith),
  new_read_write_request-Frames t s group offset size payload g o n room,
  new_add_notification_request-Frames t s group offset size mode delay cycle g o n m d c,
  new_delete_notification_request-Frames t s handle h,
)
