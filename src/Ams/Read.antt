-- ===== src/Ams/Read.antt =====
-- ams/read.go: the Read request and its response.
pub mod Wire
pub mod Framing
use goads.Base.{ℕ, ◌+◌, Bool, ◌&&◌, Option, List, ◌==◌}
use goads.Ams.Outcome.{Error}
use goads.Ams.Buffer.{
  Action, ◌>>=◌, ◌>>◌, return_err, read_n, read_uint32, read_struct, write_n, write_uint32,
  write_struct,
}
use goads.Ams.Addr.{Addr}
use goads.Ams.Header.{TcpHeader, AmsHeader, encode_tcp, decode_tcp, encode_ams, decode_ams}
use goads.Ams.Constants.{cmd_ads_read, state_response, state_ads_command, ams_header_len, has_state}

pub record ReadRequest : Type 0 where
  pub tcp_header : TcpHeader
  pub ams_header : AmsHeader
  pub index_group : ℕ
  pub index_offset : ℕ
  pub length : ℕ

-- `NewReadRequest`
unfoldable pub new_read_request : Addr → Addr → ℕ → ℕ → ℕ → ReadRequest
new_read_request target sender group offset length = record {
  tcp_header = record { reserved = 0; length = ams_header_len + 12 };
  ams_header = record {
    target = target;
    sender = sender;
    cmd_id = cmd_ads_read;
    state_flags = state_ads_command;
    length = 12;
    error_code = 0;
    invoke_id = 0;
  };
  index_group = group;
  index_offset = offset;
  length = length;
}

unfoldable pub encode_request : ReadRequest → Action (ReadRequest × Option Error)
encode_request r = do
  tcp ← write_struct encode_tcp r.tcp_header
  ams ← write_struct encode_ams r.ams_header
  write_uint32 r.index_group
  write_uint32 r.index_offset
  write_uint32 r.length
  return_err (record r { tcp_header = tcp; ams_header = ams })

unfoldable pub decode_request : ReadRequest → Action (ReadRequest × Option Error)
decode_request r = do
  tcp ← read_struct decode_tcp r.tcp_header
  ams ← read_struct decode_ams r.ams_header
  group ← read_uint32
  offset ← read_uint32
  length ← read_uint32
  return_err (record {
    tcp_header = tcp;
    ams_header = ams;
    index_group = group;
    index_offset = offset;
    length = length;
  })

pub record ReadResponse : Type 0 where
  pub tcp_header : TcpHeader
  pub ams_header : AmsHeader
  pub result : ℕ
  pub length : ℕ
  pub payload : List ℕ

unfoldable pub encode_response : ReadResponse → Action (ReadResponse × Option Error)
encode_response r = do
  tcp ← write_struct encode_tcp r.tcp_header
  ams ← write_struct encode_ams r.ams_header
  write_uint32 r.result
  write_uint32 r.length
  write_n r.payload r.length
  return_err (record r { tcp_header = tcp; ams_header = ams })

unfoldable pub decode_response : ReadResponse → Action (ReadResponse × Option Error)
decode_response r = do
  tcp ← read_struct decode_tcp r.tcp_header
  ams ← read_struct decode_ams r.ams_header
  result ← read_uint32
  length ← read_uint32
  payload ← read_n length
  return_err (record {
    tcp_header = tcp;
    ams_header = ams;
    result = result;
    length = length;
    payload = payload;
  })

-- `IsReadResponse`
unfoldable pub is_read_response : AmsHeader → Bool
is_read_response h = h.cmd_id == cmd_ads_read && has_state h state_response
