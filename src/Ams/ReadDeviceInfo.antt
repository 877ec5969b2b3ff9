-- ===== src/Ams/ReadDeviceInfo.antt =====
-- ams/readdeviceinfo.go: the ReadDeviceInfo request and its response.
pub mod Wire
pub mod Framing
use goads.Base.{
  ℕ, ◌+◌, Bool, ◌&&◌, Option, List, ◌==◌, length, replicate, [], ◌∷◌, bit_or, if◌then◌else◌,
}
use goads.Ams.Outcome.{Error}
use goads.Ams.Buffer.{
  Action, ◌>>=◌, ◌>>◌, return_err, read_full, copy, read_uint8, read_uint16, read_uint32,
  read_struct, write, write_uint8, write_uint16, write_uint32, write_struct,
}
use goads.Ams.Addr.{Addr}
use goads.Ams.Header.{TcpHeader, AmsHeader, encode_tcp, decode_tcp, encode_ams, decode_ams}
use goads.Ams.Constants.{
  cmd_ads_read_device_info, state_response, state_ads_command, ams_header_len, has_state,
}

pub record ReadDeviceInfoRequest : Type 0 where
  pub tcp_header : TcpHeader
  pub ams_header : AmsHeader

-- `NewReadDeviceInfoRequest`
unfoldable pub new_read_device_info_request : Addr → Addr → ReadDeviceInfoRequest
new_read_device_info_request target sender = record {
  tcp_header = record { reserved = 0; length = ams_header_len };
  ams_header = record {
    target = target;
    sender = sender;
    cmd_id = cmd_ads_read_device_info;
    state_flags = state_ads_command;
    length = 0;
    error_code = 0;
    invoke_id = 0;
  };
}

unfoldable pub encode_request :
    ReadDeviceInfoRequest → Action (ReadDeviceInfoRequest × Option Error)
encode_request r = do
  tcp ← write_struct encode_tcp r.tcp_header
  ams ← write_struct encode_ams r.ams_header
  return_err (record r { tcp_header = tcp; ams_header = ams })

unfoldable pub decode_request :
    ReadDeviceInfoRequest → Action (ReadDeviceInfoRequest × Option Error)
decode_request r = do
  tcp ← read_struct decode_tcp r.tcp_header
  ams ← read_struct decode_ams r.ams_header
  return_err (record { tcp_header = tcp; ams_header = ams })

-- `IsReadDeviceInfoRequest`: the flags are compared as a whole.
unfoldable pub is_read_device_info_request : AmsHeader → Bool
is_read_device_info_request h =
    h.cmd_id == cmd_ads_read_device_info && h.state_flags == state_ads_command

-- `device_name` is an array of 16 bytes.
pub record ReadDeviceInfoResponse : Type 0 where
  pub tcp_header : TcpHeader
  pub ams_header : AmsHeader
  pub result : ℕ
  pub major_version : ℕ
  pub minor_version : ℕ
  pub build_version : ℕ
  pub device_name : List ℕ

-- `NewReadDeviceInfoResponse`; the name is given as its bytes.
unfoldable pub new_read_device_info_response :
    Addr → Addr → ℕ → ℕ → ℕ → ℕ → List ℕ → ReadDeviceInfoResponse
new_read_device_info_response target sender result major minor build name = record {
  tcp_header = record { reserved = 0; length = ams_header_len + 24 };
  ams_header = record {
    target = target;
    sender = sender;
    cmd_id = cmd_ads_read_device_info;
    state_flags = bit_or state_ads_command state_response;
    length = 24;
    error_code = 0;
    invoke_id = 0;
  };
  result = result;
  major_version = major;
  minor_version = minor;
  build_version = build;
  device_name = copy (replicate 16 0) name;
}

unfoldable pub encode_response :
    ReadDeviceInfoResponse → Action (ReadDeviceInfoResponse × Option Error)
encode_response r = do
  tcp ← write_struct encode_tcp r.tcp_header
  ams ← write_struct encode_ams r.ams_header
  write_uint32 r.result
  write_uint8 r.major_version
  write_uint8 r.minor_version
  write_uint16 r.build_version
  write r.device_name
  return_err (record r { tcp_header = tcp; ams_header = ams })

unfoldable pub decode_response :
    ReadDeviceInfoResponse → Action (ReadDeviceInfoResponse × Option Error)
decode_response r = do
  tcp ← read_struct decode_tcp r.tcp_header
  ams ← read_struct decode_ams r.ams_header
  result ← read_uint32
  major_version ← read_uint8
  minor_version ← read_uint8
  build_version ← read_uint16
  device_name ← read_full r.device_name
  return_err (record {
    tcp_header = tcp;
    ams_header = ams;
    result = result;
    major_version = major_version;
    minor_version = minor_version;
    build_version = build_version;
    device_name = device_name;
  })

-- The bytes in front of the first null byte, or all of them.
unfoldable pub until_null : List ℕ → List ℕ
until_null [] = []
until_null (x ∷ xs) = if x == 0 then [] else x ∷ until_null xs

-- `GetDeviceName`
unfoldable pub get_device_name : ReadDeviceInfoResponse → List ℕ
unfolding until_null
get_device_name r = until_null r.device_name

-- `IsReadDeviceInfoResponse`
unfoldable pub is_read_device_info_response : AmsHeader → Bool
is_read_device_info_response h = h.cmd_id == cmd_ads_read_device_info && has_state h state_response
