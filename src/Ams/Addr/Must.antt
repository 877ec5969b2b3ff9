-- ===== src/Ams/Addr/Must.antt =====
-- ams/addr.go, `MustParseAddr`, and what the two parsers make of the text of an address.
use goads.Base.{ℕ, ◌≡◌, refl, none, some, List, arith, Option-cases, inl, inr}
use goads.Ams.Outcome.{Outcome, done, panic}
use goads.Ams.Addr.{Addr}
use goads.Ams.Addr.Text.{string_of, parse_addr, IsTextAddr, parse_addr-string_of, parse_addr_again}

-- `MustParseAddr`
unfoldable pub must_parse_addr : List ℕ → Outcome Addr
unfolding parse_addr
must_parse_addr s = elim (parse_addr s) [ none ↦ panic | some addr ↦ done addr ]

-- The text of an address is parsed to it by both parsers.
abbrev pub Round : Addr → Type 0
Round r =
    (text : List ℕ) × (string_of r ≡ done text)
    × (parse_addr text ≡ some r)
    × (must_parse_addr text ≡ done r)

Round-text : (r : Addr) → IsTextAddr r → Round r
unfolding must_parse_addr
Round-text r v =
    let (text, shown, parsed) = parse_addr-string_of r v in
    (text, shown, parsed, rw (parsed, must_parse_addr) refl)

must_parse_addr-done : (s : List ℕ) (r : Addr) → must_parse_addr s ≡ done r → parse_addr s ≡ some r
unfolding must_parse_addr
must_parse_addr-done s r e = elim (Option-cases (parse_addr s)) [
  | inl wrong ↦ absurd (ground arith)
  | inr (a, right) ↦ ground arith
]

-- The text of an address with a NetID of six bytes and a 16-bit port is parsed to that address; and
-- whatever text `MustParseAddr` does not panic on, it and `ParseAddr` give the same address for it,
-- which has a NetID of six bytes and a 16-bit port, and whose own text is parsed to it again.
pub addr_text-Round :
    (r parsed : Addr) (s : List ℕ)
    → IsTextAddr r
    → must_parse_addr s ≡ done parsed
    → Round r × (parse_addr s ≡ some parsed) × IsTextAddr parsed × Round parsed
addr_text-Round r parsed s v e =
    let given = must_parse_addr-done s parsed e in
    let w = (parse_addr_again s parsed given).0 in (Round-text r v, given, w, Round-text parsed w)
