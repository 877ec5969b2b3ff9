-- ===== src/Ams/Packet.antt =====
-- The packets that client.go receives, how it tells them apart, and how it decodes them.
pub mod Classify
pub mod Wire
use goads.Base.{ℕ, Option, none, some, List, [], replicate, if◌then◌else◌}
use goads.Ams.Outcome.{Outcome, done, panic, Error}
use goads.Ams.Buffer.{Buffer, new_buffer}
use goads.Ams.Header.{AmsHeader, zero_tcp, zero_ams}
use goads.Ams.Read.{ReadResponse, is_read_response}
use goads.Ams.Read
use goads.Ams.Write.{WriteResponse, is_write_response}
use goads.Ams.Write
use goads.Ams.ReadWrite.{ReadWriteResponse, is_read_write_response}
use goads.Ams.ReadWrite
use goads.Ams.ReadState.{ReadStateRequest, is_read_state_request}
use goads.Ams.ReadState
use goads.Ams.ReadDeviceInfo.{ReadDeviceInfoResponse, is_read_device_info_response}
use goads.Ams.ReadDeviceInfo
use goads.Ams.Notification.{DeviceNotificationRequest, is_device_notification_request}
use goads.Ams.Notification
use goads.Ams.AddNotification.{AddNotificationResponse, is_add_notification_response}
use goads.Ams.AddNotification
use goads.Ams.DeleteNotification.{DeleteNotificationResponse, is_delete_notification_response}
use goads.Ams.DeleteNotification

pub data Packet : Type 0 where
  read_device_info_response : ReadDeviceInfoResponse → Packet
  read_response : ReadResponse → Packet
  write_response : WriteResponse → Packet
  read_write_response : ReadWriteResponse → Packet
  read_state_request : ReadStateRequest → Packet
  device_notification : DeviceNotificationRequest → Packet
  add_notification_response : AddNotificationResponse → Packet
  delete_notification_response : DeleteNotificationResponse → Packet

-- The decoder of one kind of packet, on a packet of zero values.
abbrev pub Decoder : Type 0
Decoder = List ℕ → Outcome (Packet × Option Error)

abbrev pub wrap :
    {X : Type 0}
    → (X → Packet)
    → Outcome ((X × Option Error) × Buffer)
    → Outcome (Packet × Option Error)
wrap c (done ((x, e), b)) = done (c x, e)
wrap c panic = panic

abbrev pub zero_read_device_info_response : ReadDeviceInfoResponse
zero_read_device_info_response = record {
  tcp_header = zero_tcp;
  ams_header = zero_ams;
  result = 0;
  major_version = 0;
  minor_version = 0;
  build_version = 0;
  device_name = replicate 16 0;
}

unfoldable pub decode_read_device_info_response : Decoder
decode_read_device_info_response bytes =
    wrap read_device_info_response
      (ReadDeviceInfo.decode_response zero_read_device_info_response (new_buffer bytes))

abbrev pub zero_read_response : ReadResponse
zero_read_response = record {
  tcp_header = zero_tcp;
  ams_header = zero_ams;
  result = 0;
  length = 0;
  payload = [];
}

unfoldable pub decode_read_response : Decoder
decode_read_response bytes =
    wrap read_response (Read.decode_response zero_read_response (new_buffer bytes))

abbrev pub zero_write_response : WriteResponse
zero_write_response = record { tcp_header = zero_tcp; ams_header = zero_ams; result = 0 }

unfoldable pub decode_write_response : Decoder
decode_write_response bytes =
    wrap write_response (Write.decode_response zero_write_response (new_buffer bytes))

abbrev pub zero_read_write_response : ReadWriteResponse
zero_read_write_response = record {
  tcp_header = zero_tcp;
  ams_header = zero_ams;
  result = 0;
  length = 0;
  payload = [];
}

unfoldable pub decode_read_write_response : Decoder
decode_read_write_response bytes =
    wrap read_write_response (ReadWrite.decode_response zero_read_write_response (new_buffer bytes))

abbrev pub zero_read_state_request : ReadStateRequest
zero_read_state_request = record { tcp_header = zero_tcp; ams_header = zero_ams }

unfoldable pub decode_read_state_request : Decoder
decode_read_state_request bytes =
    wrap read_state_request (ReadState.decode_request zero_read_state_request (new_buffer bytes))

abbrev pub zero_device_notification : DeviceNotificationRequest
zero_device_notification = record {
  tcp_header = zero_tcp;
  ams_header = zero_ams;
  length = 0;
  stamp_count = 0;
  stamps = [];
}

unfoldable pub decode_device_notification : Decoder
decode_device_notification bytes =
    wrap device_notification (Notification.decode zero_device_notification (new_buffer bytes))

abbrev pub zero_add_notification_response : AddNotificationResponse
zero_add_notification_response = record {
  tcp_header = zero_tcp;
  ams_header = zero_ams;
  result = 0;
  notification_handle = 0;
}

unfoldable pub decode_add_notification_response : Decoder
decode_add_notification_response bytes =
    wrap add_notification_response
      (AddNotification.decode_response zero_add_notification_response (new_buffer bytes))

abbrev pub zero_delete_notification_response : DeleteNotificationResponse
zero_delete_notification_response = record {
  tcp_header = zero_tcp;
  ams_header = zero_ams;
  result = 0;
}

unfoldable pub decode_delete_notification_response : Decoder
decode_delete_notification_response bytes =
    wrap delete_notification_response
      (DeleteNotification.decode_response zero_delete_notification_response (new_buffer bytes))

-- The `switch` of `receive`: the first test that passes picks the packet.
unfoldable pub classify : AmsHeader → Option Decoder
classify h =
    if is_read_device_info_response h
    then some decode_read_device_info_response
    else if is_read_response h
    then some decode_read_response
    else if is_write_response h
    then some decode_write_response
    else if is_read_write_response h
    then some decode_read_write_response
    else if is_read_state_request h
    then some decode_read_state_request
    else if is_device_notification_request h
    then some decode_device_notification
    else if is_add_notification_response h
    then some decode_add_notification_response
    else if is_delete_notification_response h
    then some decode_delete_notification_response
    else none
