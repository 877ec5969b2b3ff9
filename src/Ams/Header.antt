-- ===== src/Ams/Header.antt =====
-- ams/header.go: the AMS/TCP header, the AMS header, and both in one.
pub mod Codec
pub mod Fate
use goads.Base.{ℕ, Option, []}
use goads.Ams.Outcome.{Error}
use goads.Ams.Buffer.{
  Action, ◌>>=◌, ◌>>◌, return_err, read_uint16, read_uint32, read_struct, write_uint16,
  write_uint32, write_struct,
}
use goads.Ams.Addr
use goads.Ams.Addr.{Addr}

pub record TcpHeader : Type 0 where
  pub reserved : ℕ
  pub length : ℕ

unfoldable pub encode_tcp : TcpHeader → Action (TcpHeader × Option Error)
encode_tcp h = do write_uint16 h.reserved; write_uint32 h.length; return_err h

unfoldable pub decode_tcp : TcpHeader → Action (TcpHeader × Option Error)
decode_tcp h = do
  reserved ← read_uint16
  length ← read_uint32
  return_err (record { reserved = reserved; length = length })

pub record AmsHeader : Type 0 where
  pub target : Addr
  pub sender : Addr
  pub cmd_id : ℕ
  pub state_flags : ℕ
  pub length : ℕ
  pub error_code : ℕ
  pub invoke_id : ℕ

unfoldable pub encode_ams : AmsHeader → Action (AmsHeader × Option Error)
encode_ams h = do
  target ← write_struct Addr.encode h.target
  sender ← write_struct Addr.encode h.sender
  write_uint16 h.cmd_id
  write_uint16 h.state_flags
  write_uint32 h.length
  write_uint32 h.error_code
  write_uint32 h.invoke_id
  return_err (record h { target = target; sender = sender })

unfoldable pub decode_ams : AmsHeader → Action (AmsHeader × Option Error)
decode_ams h = do
  target ← read_struct Addr.decode h.target
  sender ← read_struct Addr.decode h.sender
  cmd_id ← read_uint16
  state_flags ← read_uint16
  length ← read_uint32
  error_code ← read_uint32
  invoke_id ← read_uint32
  return_err (record {
    target = target;
    sender = sender;
    cmd_id = cmd_id;
    state_flags = state_flags;
    length = length;
    error_code = error_code;
    invoke_id = invoke_id;
  })

-- Both headers, as every packet begins.
pub record Header : Type 0 where
  pub tcp_header : TcpHeader
  pub ams_header : AmsHeader

unfoldable pub encode : Header → Action (Header × Option Error)
encode h = do
  tcp ← write_struct encode_tcp h.tcp_header
  ams ← write_struct encode_ams h.ams_header
  return_err (record { tcp_header = tcp; ams_header = ams })

unfoldable pub decode : Header → Action (Header × Option Error)
decode h = do
  tcp ← read_struct decode_tcp h.tcp_header
  ams ← read_struct decode_ams h.ams_header
  return_err (record { tcp_header = tcp; ams_header = ams })

-- The zero values of the header types, as `&Packet{}` has them.
abbrev pub zero_addr : Addr
zero_addr = record { net_id = []; port = 0 }

abbrev pub zero_tcp : TcpHeader
zero_tcp = record { reserved = 0; length = 0 }

abbrev pub zero_ams : AmsHeader
zero_ams = record {
  target = zero_addr;
  sender = zero_addr;
  cmd_id = 0;
  state_flags = 0;
  length = 0;
  error_code = 0;
  invoke_id = 0;
}

abbrev pub zero_header : Header
zero_header = record { tcp_header = zero_tcp; ams_header = zero_ams }
