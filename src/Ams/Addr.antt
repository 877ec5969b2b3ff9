-- ===== src/Ams/Addr.antt =====
-- ams/addr.go: the address of a device and its codec.
pub mod Text
pub mod Must
use goads.Base.{ℕ, Option, List}
use goads.Ams.Outcome.{Error}
use goads.Ams.Buffer.{Action, ◌>>=◌, ◌>>◌, return_err, read_n, read_uint16, write, write_uint16}

pub record Addr : Type 0 where
  pub net_id : List ℕ
  pub port : ℕ

-- Encode
unfoldable pub encode : Addr → Action (Addr × Option Error)
encode a = do write a.net_id; write_uint16 a.port; return_err a

-- Decode
unfoldable pub decode : Addr → Action (Addr × Option Error)
decode a = do
  net_id ← read_n 6
  port ← read_uint16
  return_err (record { net_id = net_id; port = port })
