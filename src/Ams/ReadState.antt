-- ===== src/Ams/ReadState.antt =====
-- ams/readstate.go: the ReadState request and its response.
pub mod Wire
pub mod Framing
use goads.Base.{ℕ, ◌+◌, Bool, ◌&&◌, Option, ◌==◌, length, bit_or}
use goads.Ams.Outcome.{Error}
use goads.Ams.Buffer.{
  Action, ◌>>=◌, ◌>>◌, return_err, read_uint16, read_uint32, read_struct, write_uint16,
  write_uint32, write_struct,
}
use goads.Ams.Addr.{Addr}
use goads.Ams.Header.{TcpHeader, AmsHeader, encode_tcp, decode_tcp, encode_ams, decode_ams}
use goads.Ams.Constants.{cmd_ads_read_state, state_response, state_ads_command, ams_header_len}

pub record ReadStateRequest : Type 0 where
  pub tcp_header : TcpHeader
  pub ams_header : AmsHeader

-- `NewReadStateRequest`
unfoldable pub new_read_state_request : Addr → Addr → ReadStateRequest
new_read_state_request target sender = record {
  tcp_header = record { reserved = 0; length = ams_header_len };
  ams_header = record {
    target = target;
    sender = sender;
    cmd_id = cmd_ads_read_state;
    state_flags = state_ads_command;
    length = 0;
    error_code = 0;
    invoke_id = 0;
  };
}

unfoldable pub encode_request : ReadStateRequest → Action (ReadStateRequest × Option Error)
encode_request r = do
  tcp ← write_struct encode_tcp r.tcp_header
  ams ← write_struct encode_ams r.ams_header
  return_err (record r { tcp_header = tcp; ams_header = ams })

unfoldable pub decode_request : ReadStateRequest → Action (ReadStateRequest × Option Error)
decode_request r = do
  tcp ← read_struct decode_tcp r.tcp_header
  ams ← read_struct decode_ams r.ams_header
  return_err (record { tcp_header = tcp; ams_header = ams })

-- `IsReadStateRequest`: the flags are compared as a whole.
unfoldable pub is_read_state_request : AmsHeader → Bool
is_read_state_request h = h.cmd_id == cmd_ads_read_state && h.state_flags == state_ads_command

pub record ReadStateResponse : Type 0 where
  pub tcp_header : TcpHeader
  pub ams_header : AmsHeader
  pub result : ℕ
  pub ads_state : ℕ
  pub device_state : ℕ

-- `NewReadStateResponse`
unfoldable pub new_read_state_response : Addr → Addr → ℕ → ℕ → ℕ → ReadStateResponse
new_read_state_response target sender result ads_state device_state = record {
  tcp_header = record { reserved = 0; length = ams_header_len + 8 };
  ams_header = record {
    target = target;
    sender = sender;
    cmd_id = cmd_ads_read_state;
    state_flags = bit_or state_ads_command state_response;
    length = 8;
    error_code = 0;
    invoke_id = 0;
  };
  result = result;
  ads_state = ads_state;
  device_state = device_state;
}

unfoldable pub encode_response : ReadStateResponse → Action (ReadStateResponse × Option Error)
encode_response r = do
  tcp ← write_struct encode_tcp r.tcp_header
  ams ← write_struct encode_ams r.ams_header
  write_uint32 r.result
  write_uint16 r.ads_state
  write_uint16 r.device_state
  return_err (record r { tcp_header = tcp; ams_header = ams })

unfoldable pub decode_response : ReadStateResponse → Action (ReadStateResponse × Option Error)
decode_response r = do
  tcp ← read_struct decode_tcp r.tcp_header
  ams ← read_struct decode_ams r.ams_header
  result ← read_uint32
  ads_state ← read_uint16
  device_state ← read_uint16
  return_err (record {
    tcp_header = tcp;
    ams_header = ams;
    result = result;
    ads_state = ads_state;
    device_state = device_state;
  })
