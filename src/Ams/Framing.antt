-- ===== src/Ams/Framing.antt =====
-- The lengths that the constructors of ams/*.go announce in both headers, and the bytes that are
-- encoded.
use goads.Base.{ℕ, ◌+◌, ◌≡◌, List, length, length-append, length-take, length-drop, arith}
use goads.Ams.Buffer.{put_uint16, put_uint32, copy}
use goads.Ams.Addr.{Addr}
use goads.Ams.Header.{TcpHeader, AmsHeader}
use goads.Ams.Header.Codec.{IsAddr, addr_wire, tcp_wire, ams_wire}

-- The TCP header announces what follows it, and the AMS header what follows both headers.
abbrev pub Frames : TcpHeader → AmsHeader → List ℕ → Type 0
Frames tcp ams wire = (length wire ≡ 6 + tcp.length) × (length wire ≡ 38 + ams.length)

pub length-tcp_wire : (h : TcpHeader) → length (tcp_wire h) ≡ 6
unfolding tcp_wire put_uint16 put_uint32
length-tcp_wire h = omega arith

length-addr_wire : (a : Addr) → IsAddr a → length (addr_wire a) ≡ 8
unfolding addr_wire put_uint16
length-addr_wire a v = rw length-append (omega arith)

pub length-ams_wire : (h : AmsHeader) → IsAddr h.target → IsAddr h.sender → length (ams_wire h) ≡ 32
unfolding ams_wire put_uint16 put_uint32
length-ams_wire h t s =
    simp length-append (omega (arith, length-addr_wire h.target t, length-addr_wire h.sender s))

-- `copy` keeps the length of its destination.
pub length-copy : (dst src : List ℕ) → length (copy dst src) ≡ length dst
unfolding copy
length-copy dst src =
    rw length-append
      (omega (arith, length-take {0} (length dst) src, length-drop {0} (length src) dst))
