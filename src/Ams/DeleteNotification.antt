-- ===== src/Ams/DeleteNotification.antt =====
-- ams/adddelnotification.go: the request that deletes a device notification, and its response.
pub mod Wire
pub mod Framing
use goads.Base.{ℕ, ◌+◌, Bool, ◌&&◌, Option, ◌==◌, length, bit_or}
use goads.Ams.Outcome.{Error}
use goads.Ams.Buffer.{
  Action, ◌>>=◌, ◌>>◌, return_err, read_uint32, read_struct, write_uint32, write_struct,
}
use goads.Ams.Addr.{Addr}
use goads.Ams.Header.{TcpHeader, AmsHeader, encode_tcp, decode_tcp, encode_ams, decode_ams}
use goads.Ams.Constants.{
  cmd_ads_delete_device_notification, state_response, state_ads_command, ams_header_len, has_state,
}

pub record DeleteNotificationRequest : Type 0 where
  pub tcp_header : TcpHeader
  pub ams_header : AmsHeader
  pub notification_handle : ℕ

-- `NewDeleteDeviceNotificationRequest`
unfoldable pub new_delete_notification_request : Addr → Addr → ℕ → DeleteNotificationRequest
new_delete_notification_request target sender handle = record {
  tcp_header = record { reserved = 0; length = 0 };
  ams_header = record {
    target = target;
    sender = sender;
    cmd_id = cmd_ads_delete_device_notification;
    state_flags = state_ads_command;
    length = 0;
    error_code = 0;
    invoke_id = 0;
  };
  notification_handle = handle;
}

-- What `Encode` first writes into its receiver.
unfoldable pub stamp_request : DeleteNotificationRequest → DeleteNotificationRequest
stamp_request r = record r {
  tcp_header = record r.tcp_header { length = ams_header_len + 4 };
  ams_header = record r.ams_header { length = 4; cmd_id = cmd_ads_delete_device_notification };
}

unfoldable pub encode_request :
    DeleteNotificationRequest → Action (DeleteNotificationRequest × Option Error)
unfolding stamp_request
encode_request s = do
  let r = stamp_request s
  tcp ← write_struct encode_tcp r.tcp_header
  ams ← write_struct encode_ams r.ams_header
  write_uint32 r.notification_handle
  return_err (record r { tcp_header = tcp; ams_header = ams })

unfoldable pub decode_request :
    DeleteNotificationRequest → Action (DeleteNotificationRequest × Option Error)
decode_request r = do
  tcp ← read_struct decode_tcp r.tcp_header
  ams ← read_struct decode_ams r.ams_header
  notification_handle ← read_uint32
  return_err
      (record { tcp_header = tcp; ams_header = ams; notification_handle = notification_handle })

pub record DeleteNotificationResponse : Type 0 where
  pub tcp_header : TcpHeader
  pub ams_header : AmsHeader
  pub result : ℕ

-- What `Encode` first writes into its receiver.
unfoldable pub stamp_response : DeleteNotificationResponse → DeleteNotificationResponse
stamp_response r = record r {
  tcp_header = record r.tcp_header { length = ams_header_len + 4 };
  ams_header = record r.ams_header {
    length = 4;
    cmd_id = cmd_ads_delete_device_notification;
    state_flags = bit_or r.ams_header.state_flags state_response;
  };
}

unfoldable pub encode_response :
    DeleteNotificationResponse → Action (DeleteNotificationResponse × Option Error)
unfolding stamp_response
encode_response s = do
  let r = stamp_response s
  tcp ← write_struct encode_tcp r.tcp_header
  ams ← write_struct encode_ams r.ams_header
  write_uint32 r.result
  return_err (record r { tcp_header = tcp; ams_header = ams })

unfoldable pub decode_response :
    DeleteNotificationResponse → Action (DeleteNotificationResponse × Option Error)
decode_response r = do
  tcp ← read_struct decode_tcp r.tcp_header
  ams ← read_struct decode_ams r.ams_header
  result ← read_uint32
  return_err (record { tcp_header = tcp; ams_header = ams; result = result })

-- `IsDeleteDeviceNotificationResponse`
unfoldable pub is_delete_notification_response : AmsHeader → Bool
is_delete_notification_response h =
    h.cmd_id == cmd_ads_delete_device_notification && has_state h state_response
