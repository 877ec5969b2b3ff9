-- ===== src/Tests/Frames.antt =====
-- The lengths of a packet of each constructor, and how headers of some lengths end.
use goads.Base.{◌≡◌, [], ◌∷◌, arith, replicate}
use goads.Ams.Buffer.{new_buffer}
use goads.Ams.Header.{zero_header, decode}
use goads.Ams.Header.Fate.{ending_of, ending_at, decode-ending}
use goads.Ams.Framing.{Frames}
use goads.Tests.Data.{target, sender, target-IsAddr, sender-IsAddr}
use goads.Ams.Requests.{new_requests-Frames}
use goads.Ams.AddNotification as AddNotificationPacket
use goads.Ams.AddNotification.{new_add_notification_request}
use goads.Ams.AddNotification.Wire as AddNotificationWire
use goads.Ams.AddNotification.Wire.{IsAddNotificationRequest}
use goads.Ams.DeleteNotification as DeleteNotificationPacket
use goads.Ams.DeleteNotification.{new_delete_notification_request}
use goads.Ams.DeleteNotification.Wire as DeleteNotificationWire
use goads.Ams.DeleteNotification.Wire.{IsDeleteNotificationRequest}
use goads.Ams.Read.{new_read_request}
use goads.Ams.Read.Wire as ReadWire
use goads.Ams.Read.Wire.{IsReadRequest}
use goads.Ams.ReadWrite.{new_read_write_request}
use goads.Ams.ReadWrite.Wire as ReadWriteWire
use goads.Ams.ReadWrite.Wire.{IsReadWriteRequest}
use goads.Ams.Write.{new_write_request}
use goads.Ams.Write.Wire as WriteWire
use goads.Ams.Write.Wire.{IsWriteRequest}
use goads.Ams.ReadDeviceInfo.{new_read_device_info_request, new_read_device_info_response}
use goads.Ams.ReadDeviceInfo.Wire.{IsReadDeviceInfoRequest, IsReadDeviceInfoResponse}
use goads.Ams.ReadDeviceInfo.Wire as ReadDeviceInfoWire
use goads.Ams.Reports.{new_reports-Frames}
use goads.Ams.ReadState.{new_read_state_request, new_read_state_response}
use goads.Ams.ReadState.Wire.{IsReadStateRequest, IsReadStateResponse}
use goads.Ams.ReadState.Wire as ReadStateWire

new_requests-Frames_example :
    let r = new_read_request target sender 61445 8 4 in
    let w = new_write_request target sender 61445 8 (1 ∷ 2 ∷ 3 ∷ []) in
    let rw_request = new_read_write_request target sender 61445 8 4 (1 ∷ 2 ∷ 3 ∷ []) in
    let a =
      AddNotificationPacket.stamp_request
        (new_add_notification_request target sender 61445 8 4 4 100 50) in
    let d =
      DeleteNotificationPacket.stamp_request (new_delete_notification_request target sender 9) in
    (IsReadRequest r × Frames r.tcp_header r.ams_header (ReadWire.request_wire r))
    × (IsWriteRequest w × Frames w.tcp_header w.ams_header (WriteWire.request_wire w))
    × (IsReadWriteRequest rw_request
        × Frames rw_request.tcp_header rw_request.ams_header
            (ReadWriteWire.request_wire rw_request))
    × (IsAddNotificationRequest a
        × Frames a.tcp_header a.ams_header (AddNotificationWire.request_wire a))
    × (IsDeleteNotificationRequest d
        × Frames d.tcp_header d.ams_header (DeleteNotificationWire.request_wire d))
new_requests-Frames_example =
    new_requests-Frames target-IsAddr sender-IsAddr 61445 8 4 4 100 50 9 (1 ∷ 2 ∷ 3 ∷ [])
      (omega arith) (omega arith) (omega arith) (omega arith) (omega arith) (omega arith)
      (omega arith) (omega arith)

decode-ending_example : ending_of (decode zero_header (new_buffer (replicate 13 7))) ≡ ending_at 13
decode-ending_example = decode-ending zero_header (replicate 13 7)

new_reports-Frames_example :
    let q = new_read_state_request target sender in
    let r = new_read_state_response target sender 0 5 0 in
    let i = new_read_device_info_request target sender in
    let d = new_read_device_info_response target sender 0 3 1 4024 (112 ∷ 108 ∷ 99 ∷ []) in
    ((IsReadStateRequest q × Frames q.tcp_header q.ams_header (ReadStateWire.request_wire q))
      × (IsReadStateResponse r × Frames r.tcp_header r.ams_header (ReadStateWire.response_wire r)))
    × ((IsReadDeviceInfoRequest i
          × Frames i.tcp_header i.ams_header (ReadDeviceInfoWire.request_wire i))
        × (IsReadDeviceInfoResponse d
            × Frames d.tcp_header d.ams_header (ReadDeviceInfoWire.response_wire d)))
new_reports-Frames_example =
    new_reports-Frames target-IsAddr sender-IsAddr 0 5 0 3 1 4024 (112 ∷ 108 ∷ 99 ∷ [])
      (omega arith) (omega arith) (omega arith) (omega arith)
