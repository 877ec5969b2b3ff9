-- ===== src/Ams/Header/Fate.antt =====
-- How the header's decoder ends on a packet of any length.
use goads.Base.{
  ℕ, ◌-◌, ◌<◌, ◌≡◌, refl, ap, ◌∙◌, Option, none, some, List, ltb, leb, if◌then◌else◌, length, arith,
  Bool-cases, inl, inr, leb→le,
}
use mathlib.Core.Path.{subst}
use goads.Ams.Outcome.{Outcome, done, panic, Error}
use goads.Ams.Buffer.{Buffer, Action, new_buffer, read_uint16, read_uint32, return_err, ◌>>=◌}
use goads.Ams.Buffer.Fate.{
  Short, fails, crashes, Ends, Fares, ErrIsLeft, Fares-bind, Fares-return_err,
}
use goads.Ams.Buffer.Fate.Reads.{Fares-read_n, Fares-uint16, Fares-uint32, Fares-struct}
use goads.Ams.Addr
use goads.Ams.Addr.{Addr}
use goads.Ams.Header.{TcpHeader, AmsHeader, Header, decode_tcp, decode_ams, decode}

-- Two reads that panic on too few bytes, in a row.
crash : ℕ → Short
crash n = crashes

-- An address fails within its NetID and panics within its port.
addr_short : ℕ → Short
addr_short n = if leb 6 n then crashes else fails

Fares-weaken :
    {A : Type 0} {Q : A → Option Error → Type 0} {m : Action A} {k : ℕ} (s : ℕ → Short)
    {t : ℕ → Short}
    → Fares Q m k s
    → ((n : ℕ) → n < k → s n ≡ t n)
    → Fares Q m k t
Fares-weaken {Q} {m} s {t} h e = record {
  enough = h.enough;
  lacking =
      λ bs lack. subst (λ φ. Ends Q φ (m (new_buffer bs))) (e (length bs) lack) (h.lacking bs lack);
  stuck = h.stuck;
}

Fares-addr : (x : Addr) → Fares ErrIsLeft (Addr.decode x) 8 addr_short
unfolding Addr.decode addr_short
Fares-addr x =
    Fares-weaken _
      (Fares-bind (Fares-read_n 6) (λ n. Fares-bind Fares-uint16 (λ p. Fares-return_err _)))
      (λ n h. ground arith)

Fares-tcp : (x : TcpHeader) → Fares ErrIsLeft (decode_tcp x) 6 crash
unfolding decode_tcp crash
Fares-tcp x =
    Fares-weaken _
      (Fares-bind Fares-uint16 (λ r. Fares-bind Fares-uint32 (λ l. Fares-return_err _)))
      (λ n h. ground arith)

-- What follows the two addresses of the AMS header.
Fares-numbers :
    (g : ℕ → ℕ → ℕ → ℕ → ℕ → AmsHeader)
    → Fares ErrIsLeft
        (do
          c ← read_uint16
          s ← read_uint16
          l ← read_uint32
          e ← read_uint32
          i ← read_uint32
          return_err (g c s l e i))
        16
        crash
unfolding crash
Fares-numbers g =
    Fares-weaken _
      (Fares-bind Fares-uint16 (λ c. Fares-bind Fares-uint16 (λ s. Fares-bind Fares-uint32 (λ l.
        Fares-bind Fares-uint32
          (λ e. Fares-bind Fares-uint32 (λ i. Fares-return_err (g c s l e i)))))))
      (λ n h. ground arith)

ams_short : ℕ → Short
unfolding addr_short
ams_short n = if leb 8 n then (if leb 16 n then crashes else addr_short (n - 8)) else addr_short n

Fares-ams : (x : AmsHeader) → Fares ErrIsLeft (decode_ams x) 32 ams_short
unfolding decode_ams ams_short crash
Fares-ams x =
    Fares-weaken _
      (Fares-bind (Fares-struct Addr.decode x.target (Fares-addr x.target)) (λ t.
        Fares-bind (Fares-struct Addr.decode x.sender (Fares-addr x.sender)) (λ s.
          Fares-numbers (λ c f l e i. record {
            target = t;
            sender = s;
            cmd_id = c;
            state_flags = f;
            length = l;
            error_code = e;
            invoke_id = i;
          }))))
      (λ n h. ground arith)

header_short : ℕ → Short
unfolding ams_short
header_short n = if leb 6 n then ams_short (n - 6) else crashes

Fares-header : (x : Header) → Fares ErrIsLeft (decode x) 38 header_short
unfolding decode header_short crash
Fares-header x =
    Fares-weaken _
      (Fares-bind (Fares-struct decode_tcp x.tcp_header (Fares-tcp x.tcp_header)) (λ t.
        Fares-bind (Fares-struct decode_ams x.ams_header (Fares-ams x.ams_header))
          (λ a. Fares-return_err _)))
      (λ n h. ground arith)

-- How a call of a decoder ended.
pub data Ending : Type 0 where
  decoded failed panicked : Ending

abbrev ended : Option Error → Ending
ended none = decoded
ended (some e) = failed

abbrev pub ending_of : {X : Type 0} → Outcome ((X × Option Error) × Buffer) → Ending
ending_of (done (r, b)) = ended r.1
ending_of panic = panicked

-- Where `n` bytes end among the fields of the headers: within a NetID, within a number, or behind.
unfoldable pub ending_at : ℕ → Ending
ending_at n =
    if ltb n 6
    then panicked
    else if ltb n 12
    then failed
    else if ltb n 14
    then panicked
    else if ltb n 20
    then failed
    else if ltb n 38
    then panicked
    else decoded

abbrev short_ending : Short → Ending
short_ending fails = failed
short_ending crashes = panicked

Ends-ending :
    {X : Type 0} (φ : Short) (o : Outcome ((X × Option Error) × Buffer))
    → Ends ErrIsLeft φ o
    → ending_of o ≡ short_ending φ
Ends-ending crashes o h = rw h refl
Ends-ending fails o (r, e, rest, q, h) = rw h (rw q refl)

-- `Header.Decode` on a packet of any bytes into any receiver ends as the number of its bytes says:
-- it decodes 38 bytes or more, it fails if they end within a NetID, and it panics if they end
-- elsewhere.
pub decode-ending :
    (z : Header) (bs : List ℕ) → ending_of (decode z (new_buffer bs)) ≡ ending_at (length bs)
unfolding ending_at header_short
decode-ending z bs = elim (Bool-cases (leb 38 (length bs))) [
  | inl long ↦
      let (h, q, e) = (Fares-header z).enough bs (leb→le 38 (length bs) long) in
      ap ending_of e ∙ ap ended q ∙ ground arith
  | inr short ↦ Ends-ending _ _ ((Fares-header z).lacking bs (ground arith)) ∙ ground arith
]
