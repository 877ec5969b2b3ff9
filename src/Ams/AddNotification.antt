-- ===== src/Ams/AddNotification.antt =====
-- ams/adddelnotification.go: the request that adds a device notification, and its response.
pub mod Wire
pub mod Framing
use goads.Base.{ℕ, ◌+◌, Bool, ◌&&◌, Option, List, ◌==◌, length, replicate, bit_or}
use goads.Ams.Outcome.{Error}
use goads.Ams.Buffer.{
  Action, ◌>>=◌, ◌>>◌, return_err, read_uint32, read_struct, write_n, write_uint32, write_struct,
  read_copy,
}
use goads.Ams.Addr.{Addr}
use goads.Ams.Header.{TcpHeader, AmsHeader, encode_tcp, decode_tcp, encode_ams, decode_ams}
use goads.Ams.Constants.{
  cmd_ads_add_device_notification, state_response, state_ads_command, ams_header_len, has_state,
}

-- `reserved` is an array of 16 bytes.
pub record AddNotificationRequest : Type 0 where
  pub tcp_header : TcpHeader
  pub ams_header : AmsHeader
  pub index_group : ℕ
  pub index_off : ℕ
  pub length : ℕ
  pub trans_mode : ℕ
  pub max_delay : ℕ
  pub cycle_time : ℕ
  pub reserved : List ℕ

-- `NewAddDeviceNotificationRequest`
unfoldable pub new_add_notification_request :
    Addr → Addr → ℕ → ℕ → ℕ → ℕ → ℕ → ℕ → AddNotificationRequest
new_add_notification_request target sender group offset length trans_mode max_delay cycle_time =
    record {
      tcp_header = record { reserved = 0; length = 0 };
      ams_header = record {
        target = target;
        sender = sender;
        cmd_id = cmd_ads_add_device_notification;
        state_flags = state_ads_command;
        length = 0;
        error_code = 0;
        invoke_id = 0;
      };
      index_group = group;
      index_off = offset;
      length = length;
      trans_mode = trans_mode;
      max_delay = max_delay;
      cycle_time = cycle_time;
      reserved = replicate 16 0;
    }

-- What `Encode` first writes into its receiver.
unfoldable pub stamp_request : AddNotificationRequest → AddNotificationRequest
stamp_request r = record r {
  tcp_header = record r.tcp_header { length = ams_header_len + 40 };
  ams_header = record r.ams_header { length = 40; cmd_id = cmd_ads_add_device_notification };
}

unfoldable pub encode_request :
    AddNotificationRequest → Action (AddNotificationRequest × Option Error)
unfolding stamp_request
encode_request s = do
  let r = stamp_request s
  tcp ← write_struct encode_tcp r.tcp_header
  ams ← write_struct encode_ams r.ams_header
  write_uint32 r.index_group
  write_uint32 r.index_off
  write_uint32 r.length
  write_uint32 r.trans_mode
  write_uint32 r.max_delay
  write_uint32 r.cycle_time
  write_n r.reserved 16
  return_err (record r { tcp_header = tcp; ams_header = ams })

unfoldable pub decode_request :
    AddNotificationRequest → Action (AddNotificationRequest × Option Error)
decode_request r = do
  tcp ← read_struct decode_tcp r.tcp_header
  ams ← read_struct decode_ams r.ams_header
  index_group ← read_uint32
  index_off ← read_uint32
  length ← read_uint32
  trans_mode ← read_uint32
  max_delay ← read_uint32
  cycle_time ← read_uint32
  reserved ← read_copy r.reserved 16
  return_err (record {
    tcp_header = tcp;
    ams_header = ams;
    index_group = index_group;
    index_off = index_off;
    length = length;
    trans_mode = trans_mode;
    max_delay = max_delay;
    cycle_time = cycle_time;
    reserved = reserved;
  })

pub record AddNotificationResponse : Type 0 where
  pub tcp_header : TcpHeader
  pub ams_header : AmsHeader
  pub result : ℕ
  pub notification_handle : ℕ

-- What `Encode` first writes into its receiver.
unfoldable pub stamp_response : AddNotificationResponse → AddNotificationResponse
stamp_response r = record r {
  tcp_header = record r.tcp_header { length = ams_header_len + 8 };
  ams_header = record r.ams_header {
    length = 8;
    cmd_id = cmd_ads_add_device_notification;
    state_flags = bit_or r.ams_header.state_flags state_response;
  };
}

unfoldable pub encode_response :
    AddNotificationResponse → Action (AddNotificationResponse × Option Error)
unfolding stamp_response
encode_response s = do
  let r = stamp_response s
  tcp ← write_struct encode_tcp r.tcp_header
  ams ← write_struct encode_ams r.ams_header
  write_uint32 r.result
  write_uint32 r.notification_handle
  return_err (record r { tcp_header = tcp; ams_header = ams })

unfoldable pub decode_response :
    AddNotificationResponse → Action (AddNotificationResponse × Option Error)
decode_response r = do
  tcp ← read_struct decode_tcp r.tcp_header
  ams ← read_struct decode_ams r.ams_header
  result ← read_uint32
  notification_handle ← read_uint32
  return_err (record {
    tcp_header = tcp;
    ams_header = ams;
    result = result;
    notification_handle = notification_handle;
  })

-- `IsAddDeviceNotificationResponse`
unfoldable pub is_add_notification_response : AmsHeader → Bool
is_add_notification_response h =
    h.cmd_id == cmd_ads_add_device_notification && has_state h state_response
