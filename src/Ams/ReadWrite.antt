-- ===== src/Ams/ReadWrite.antt =====
-- ams/readwrite.go: the ReadWrite request and its response.
pub mod Wire
pub mod Framing
use goads.Base.{ℕ, ◌+◌, ◌%◌, ◌^◌, Bool, ◌&&◌, Option, List, ◌==◌, length}
use goads.Ams.Outcome.{Error}
use goads.Ams.Buffer.{
  Action, ◌>>=◌, ◌>>◌, return_err, read_n, read_uint32, read_struct, write_n, write_uint32,
  write_struct,
}
use goads.Ams.Addr.{Addr}
use goads.Ams.Header.{TcpHeader, AmsHeader, encode_tcp, decode_tcp, encode_ams, decode_ams}
use goads.Ams.Constants.{
  cmd_ads_read_write, state_response, state_ads_command, ams_header_len, has_state,
}

pub record ReadWriteRequest : Type 0 where
  pub tcp_header : TcpHeader
  pub ams_header : AmsHeader
  pub index_group : ℕ
  pub index_offset : ℕ
  pub read_length : ℕ
  pub write_length : ℕ
  pub payload : List ℕ

-- `NewReadWriteRequest`; `uint32(len(writeData))` and the sums wrap at 32 bits.
unfoldable pub new_read_write_request : Addr → Addr → ℕ → ℕ → ℕ → List ℕ → ReadWriteRequest
new_read_write_request target sender group offset read_length write_data =
    let data_len = length write_data % 2 ^ 32 in
    record {
      tcp_header = record { reserved = 0; length = (ams_header_len + data_len + 16) % 2 ^ 32 };
      ams_header = record {
        target = target;
        sender = sender;
        cmd_id = cmd_ads_read_write;
        state_flags = state_ads_command;
        length = (data_len + 16) % 2 ^ 32;
        error_code = 0;
        invoke_id = 0;
      };
      index_group = group;
      index_offset = offset;
      read_length = read_length;
      write_length = data_len;
      payload = write_data;
    }

unfoldable pub encode_request : ReadWriteRequest → Action (ReadWriteRequest × Option Error)
encode_request r = do
  tcp ← write_struct encode_tcp r.tcp_header
  ams ← write_struct encode_ams r.ams_header
  write_uint32 r.index_group
  write_uint32 r.index_offset
  write_uint32 r.read_length
  write_uint32 r.write_length
  write_n r.payload r.write_length
  return_err (record r { tcp_header = tcp; ams_header = ams })

unfoldable pub decode_request : ReadWriteRequest → Action (ReadWriteRequest × Option Error)
decode_request r = do
  tcp ← read_struct decode_tcp r.tcp_header
  ams ← read_struct decode_ams r.ams_header
  index_group ← read_uint32
  index_offset ← read_uint32
  read_length ← read_uint32
  write_length ← read_uint32
  payload ← read_n write_length
  return_err (record {
    tcp_header = tcp;
    ams_header = ams;
    index_group = index_group;
    index_offset = index_offset;
    read_length = read_length;
    write_length = write_length;
    payload = payload;
  })

pub record ReadWriteResponse : Type 0 where
  pub tcp_header : TcpHeader
  pub ams_header : AmsHeader
  pub result : ℕ
  pub length : ℕ
  pub payload : List ℕ

unfoldable pub encode_response : ReadWriteResponse → Action (ReadWriteResponse × Option Error)
encode_response r = do
  tcp ← write_struct encode_tcp r.tcp_header
  ams ← write_struct encode_ams r.ams_header
  write_uint32 r.result
  write_uint32 r.length
  write_n r.payload r.length
  return_err (record r { tcp_header = tcp; ams_header = ams })

unfoldable pub decode_response : ReadWriteResponse → Action (ReadWriteResponse × Option Error)
decode_response r = do
  tcp ← read_struct decode_tcp r.tcp_header
  ams ← read_struct decode_ams r.ams_header
  result ← read_uint32
  length ← read_uint32
  payload ← read_n length
  return_err (record {
    tcp_header = tcp;
    ams_header = ams;
    result = result;
    length = length;
    payload = payload;
  })

-- `IsReadWriteResponse`
unfoldable pub is_read_write_response : AmsHeader → Bool
is_read_write_response h = h.cmd_id == cmd_ads_read_write && has_state h state_response
