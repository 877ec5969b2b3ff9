-- ===== src/Ams/Packet/Classify.antt =====
-- Which packet the `switch` of `receive` picks.
use goads.Base.{ℕ, ◌≡◌, ◌&&◌, ◌==◌, if◌then◌else◌, Option, some, none, arith}
use goads.Ams.Header.{AmsHeader}
use goads.Ams.Constants.{has_state, state_response}
use goads.Ams.Read.{is_read_response}
use goads.Ams.Write.{is_write_response}
use goads.Ams.ReadWrite.{is_read_write_response}
use goads.Ams.ReadState.{is_read_state_request}
use goads.Ams.ReadDeviceInfo.{is_read_device_info_response}
use goads.Ams.Notification.{is_device_notification_request}
use goads.Ams.AddNotification.{is_add_notification_response}
use goads.Ams.DeleteNotification.{is_delete_notification_response}
use goads.Ams.Packet.{
  Decoder, classify, decode_read_device_info_response, decode_read_response, decode_write_response,
  decode_read_write_response, decode_read_state_request, decode_device_notification,
  decode_add_notification_response, decode_delete_notification_response,
}

-- The decoder of a response, by its command id alone.
abbrev pub response_decoder : ℕ → Option Decoder
response_decoder cmd =
    if cmd == 1
    then some decode_read_device_info_response
    else if cmd == 2
    then some decode_read_response
    else if cmd == 3
    then some decode_write_response
    else if cmd == 9
    then some decode_read_write_response
    else if cmd == 6
    then some decode_add_notification_response
    else if cmd == 7
    then some decode_delete_notification_response
    else none

-- A notification is known by its command id, whatever its flags; a request for the state has the
-- flags 4 and no other; of the rest, only packets with the response flag are known, by their command
-- id, and all others are dropped.
pub classify_lem :
    (h : AmsHeader)
    → classify h ≡ (
        if h.cmd_id == 8
        then some decode_device_notification
        else if h.cmd_id == 4 && h.state_flags == 4
        then some decode_read_state_request
        else if has_state h state_response
        then response_decoder h.cmd_id
        else none)
unfolding classify is_read_response is_write_response is_read_write_response is_read_state_request
    is_read_device_info_response is_device_notification_request is_add_notification_response
    is_delete_notification_response
classify_lem h = ground arith
