-- ===== src/Ams/Header/Codec.antt =====
-- The wire format of the headers, and that both codecs follow it.
use goads.Base.{ℕ, ◌^◌, ◌<◌, ◌≡◌, none, List, [], ◌∷◌, ◌++◌, length, concat}
use goads.Ams.Buffer.{Action, ◌>>=◌, write_struct, read_struct, put_uint16, put_uint32}
use goads.Ams.Buffer.Reads.{Reads, read_rules, Reads-bind, Reads-struct}
use goads.Ams.Buffer.Writes.{Writes, write_rules, Writes-bind, Writes-struct}
use goads.Ams.Addr
use goads.Ams.Addr.{Addr}
use goads.Ams.Header.{TcpHeader, AmsHeader, encode_tcp, decode_tcp, encode_ams, decode_ams}

-- The values that Go's types hold, and a NetID of six bytes.
pub record IsAddr (a : Addr) : Type 0 where
  pub net_id : length a.net_id ≡ 6
  pub port : a.port < 2 ^ 16

unfoldable pub addr_wire : Addr → List ℕ
addr_wire a = concat (a.net_id ∷ put_uint16 a.port ∷ [])

pub Writes-addr : (a : Addr) → Writes (write_struct Addr.encode a) (addr_wire a) a
unfolding Addr.encode addr_wire
Writes-addr a = Writes-struct _ _ _ _ (search write_rules)

pub Reads-addr : (x a : Addr) → IsAddr a → Reads (read_struct Addr.decode x) (addr_wire a) a
unfolding Addr.decode addr_wire
Reads-addr x a h = Reads-struct _ _ _ _ (search (read_rules, h.net_id, h.port))

-- The rules with the rest of the method in them, so that `search` has no value to guess.
pub Writes-addr_then :
    {B : Type 0} (f : Addr → Action B) (a : Addr) {cs : List ℕ} {b : B}
    → Writes (f a) cs b
    → Writes (write_struct Addr.encode a >>= f) (addr_wire a ++ cs) b
Writes-addr_then f a h = Writes-bind f (Writes-addr a) h

pub Reads-addr_then :
    {B : Type 0} (f : Addr → Action B) (x a : Addr) {cs : List ℕ} {b : B}
    → IsAddr a
    → Reads (f a) cs b
    → Reads (read_struct Addr.decode x >>= f) (addr_wire a ++ cs) b
Reads-addr_then f x a v h = Reads-bind f (Reads-addr x a v) h

pub record IsTcpHeader (h : TcpHeader) : Type 0 where
  pub reserved : h.reserved < 2 ^ 16
  pub length : h.length < 2 ^ 32

unfoldable pub tcp_wire : TcpHeader → List ℕ
tcp_wire h = concat (put_uint16 h.reserved ∷ put_uint32 h.length ∷ [])

pub Writes-tcp : (h : TcpHeader) → Writes (encode_tcp h) (tcp_wire h) (h, none)
unfolding encode_tcp tcp_wire
Writes-tcp h = search write_rules

pub Reads-tcp : (x h : TcpHeader) → IsTcpHeader h → Reads (decode_tcp x) (tcp_wire h) (h, none)
unfolding decode_tcp tcp_wire
Reads-tcp x h v = search (read_rules, v.reserved, v.length)

pub record IsAmsHeader (h : AmsHeader) : Type 0 where
  pub target : IsAddr h.target
  pub sender : IsAddr h.sender
  pub cmd_id : h.cmd_id < 2 ^ 16
  pub state_flags : h.state_flags < 2 ^ 16
  pub length : h.length < 2 ^ 32
  pub error_code : h.error_code < 2 ^ 32
  pub invoke_id : h.invoke_id < 2 ^ 32

unfoldable pub ams_wire : AmsHeader → List ℕ
ams_wire h = concat (
    addr_wire h.target
    ∷ addr_wire h.sender
    ∷ put_uint16 h.cmd_id
    ∷ put_uint16 h.state_flags
    ∷ put_uint32 h.length
    ∷ put_uint32 h.error_code
    ∷ put_uint32 h.invoke_id
    ∷ [])

pub Writes-ams : (h : AmsHeader) → Writes (encode_ams h) (ams_wire h) (h, none)
unfolding encode_ams ams_wire
Writes-ams h = search (write_rules, Writes-addr_then) depth 20

pub Reads-ams : (x h : AmsHeader) → IsAmsHeader h → Reads (decode_ams x) (ams_wire h) (h, none)
unfolding decode_ams ams_wire
Reads-ams x h v =
    search
      (
        read_rules, Reads-addr_then, v.target, v.sender, v.cmd_id, v.state_flags, v.length,
        v.error_code, v.invoke_id,
      )
      depth 20

-- Both headers as the packets read and write them, with what follows.
module _ {B : Type 0} {cs : List ℕ} {b : B} where
  pub Writes-tcp_then :
      (f : TcpHeader → Action B) (h : TcpHeader)
      → Writes (f h) cs b
      → Writes (write_struct encode_tcp h >>= f) (tcp_wire h ++ cs) b
  Writes-tcp_then f h k = Writes-bind f (Writes-struct _ _ _ _ (Writes-tcp h)) k

  pub Writes-ams_then :
      (f : AmsHeader → Action B) (h : AmsHeader)
      → Writes (f h) cs b
      → Writes (write_struct encode_ams h >>= f) (ams_wire h ++ cs) b
  Writes-ams_then f h k = Writes-bind f (Writes-struct _ _ _ _ (Writes-ams h)) k

  pub Reads-tcp_then :
      (f : TcpHeader → Action B) (x h : TcpHeader)
      → IsTcpHeader h
      → Reads (f h) cs b
      → Reads (read_struct decode_tcp x >>= f) (tcp_wire h ++ cs) b
  Reads-tcp_then f x h v k = Reads-bind f (Reads-struct _ _ _ _ (Reads-tcp x h v)) k

  pub Reads-ams_then :
      (f : AmsHeader → Action B) (x h : AmsHeader)
      → IsAmsHeader h
      → Reads (f h) cs b
      → Reads (read_struct decode_ams x >>= f) (ams_wire h ++ cs) b
  Reads-ams_then f x h v k = Reads-bind f (Reads-struct _ _ _ _ (Reads-ams x h v)) k

pub ruleset header_writes = (write_rules, Writes-tcp_then, Writes-ams_then)

pub ruleset header_reads = (read_rules, Reads-tcp_then, Reads-ams_then)
