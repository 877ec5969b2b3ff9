-- ===== src/Ams/Addr/Text.antt =====
-- ams/addr.go: the text of an address, `a.b.c.d.e.f:port`, and its parser.
use goads.Base.{
  ℕ, ◌<◌, ◌≡◌, refl, ◌==◌, leb, Bool, true, false, ◌&&◌, if◌then◌else◌, Option, none, some, List,
  [], ◌∷◌, ◌++◌, arith, All, length, and_match, Bool-cases, inl, inr,
}
use mathlib.Core.Path.{subst}
use goads.Base.Decimal.{decimal, scan_number, is_digit, at_end, other, scan_number-decimal}
use goads.Ams.Outcome.{Outcome, done, panic}
use goads.Ams.Addr.{Addr}

-- `String` on the fields, which panics where an index is out of range.
abbrev fields_text : List ℕ → ℕ → Outcome (List ℕ)
fields_text (a ∷ b ∷ c ∷ d ∷ e ∷ f ∷ _) port = done (
    decimal a
    ++ (46
        ∷ (decimal b
            ++ (46
                ∷ (decimal c
                    ++ (46
                        ∷ (decimal d
                            ++ (46
                                ∷ (decimal e
                                    ++ (46 ∷ (decimal f ++ (58 ∷ (decimal port ++ [])))))))))))))
fields_text _ port = panic

-- `String`
unfoldable pub string_of : Addr → Outcome (List ℕ)
string_of r = fields_text r.net_id r.port

-- A given byte, and what stands behind it.
unfoldable pub expect : ℕ → ℕ × List ℕ → Option (ℕ × List ℕ)
expect sep (n, []) = none
expect sep (n, b ∷ rest) = if b == sep then some (n, rest) else none

-- `(\d+)` and a separator of `reAddr`. A run of digits is matched whole, since no separator is a
-- digit.
unfoldable pub number_then : ℕ → List ℕ → Option (ℕ × List ℕ)
unfolding scan_number expect
number_then sep bytes = and_match (scan_number bytes) (expect sep)

-- The last `(\d+)$`
abbrev whole : ℕ × List ℕ → Option ℕ
whole (n, []) = some n
whole (n, b ∷ rest) = none

unfoldable pub last_number : List ℕ → Option ℕ
unfolding scan_number
last_number bytes = and_match (scan_number bytes) whole

-- `reAddr.FindStringSubmatch`: the numbers in the text.
unfoldable pub match_addr : List ℕ → Option (List ℕ × ℕ)
unfolding number_then last_number
match_addr s = and_match (number_then 46 s) λ (a, s1). and_match (number_then 46 s1) λ (b, s2).
    and_match (number_then 46 s2) λ (c, s3). and_match (number_then 46 s3) λ (d, s4).
      and_match (number_then 46 s4) λ (e, s5).
        and_match (number_then 58 s5)
          λ (f, s6). and_match (last_number s6) λ port. some (a ∷ b ∷ c ∷ d ∷ e ∷ f ∷ [], port)

-- The test of the loop for each number.
unfoldable pub all_bytes : List ℕ → Bool
all_bytes [] = true
all_bytes (n ∷ ns) = leb n 255 && all_bytes ns

-- `ParseAddr`: `none` is an error. A number that does not fit 32 bits, an error of `ParseUint`, is
-- above either bound.
unfoldable pub parse_addr : List ℕ → Option Addr
unfolding match_addr all_bytes
parse_addr s = and_match (match_addr s) λ (net_id, port).
    if all_bytes net_id && leb port 65535
    then some (record { net_id = net_id; port = port })
    else none

number_then-decimal :
    (n sep : ℕ) (rest : List ℕ)
    → is_digit sep ≡ false
    → number_then sep (decimal n ++ (sep ∷ rest)) ≡ some (n, rest)
unfolding number_then expect
number_then-decimal n sep rest none_there =
    rw (scan_number-decimal n (sep ∷ rest) (other sep rest none_there), number_then) ground arith

last_number-decimal : (n : ℕ) → last_number (decimal n ++ []) ≡ some n
unfolding last_number
last_number-decimal n = rw (scan_number-decimal n [] at_end, last_number) refl

-- What the fields of an address hold: six bytes and a 16-bit number.
pub record IsTextAddr (r : Addr) : Type 0 where
  pub six : length r.net_id ≡ 6
  pub bytes : All (λ b. b < 256) r.net_id
  pub port : r.port < 65536

dot : is_digit 46 ≡ false
unfolding is_digit
dot = refl

colon : is_digit 58 ≡ false
unfolding is_digit
colon = refl

parse_addr_fields :
    (net_id : List ℕ) (port : ℕ)
    → length net_id ≡ 6
    → All (λ b. b < 256) net_id
    → port < 65536
    → (text : List ℕ) × (string_of (record { net_id = net_id; port = port }) ≡ done text)
      × (parse_addr text ≡ some (record { net_id = net_id; port = port }))
unfolding string_of parse_addr match_addr all_bytes
parse_addr_fields (a ∷ b ∷ c ∷ d ∷ e ∷ f ∷ []) port six (ha, (hb, (hc, (hd, (he, (hf, _)))))) fits =
    (
      _,
      refl,
      rw
          (
            number_then-decimal a 46 _ dot,
            number_then-decimal b 46 _ dot,
            number_then-decimal c 46 _ dot,
            number_then-decimal d 46 _ dot,
            number_then-decimal e 46 _ dot,
            number_then-decimal f 58 _ colon,
            last_number-decimal port,
          )
          ground arith,
    )
parse_addr_fields _ port six bytes fits = absurd (omega arith)

-- What every match has.
abbrev Yields : {A : Type 0} → (A → Type 0) → Option A → Type 0
Yields P none = Unit
Yields P (some a) = P a

Yields-and_match :
    {A B : Type 0} (P : B → Type 0) (o : Option A) (f : A → Option B)
    → ((a : A) → o ≡ some a → Yields P (f a))
    → Yields P (and_match o f)
Yields-and_match P none f each = tt
Yields-and_match P (some a) f each = each a refl

Yields-some : {A : Type 0} (P : A → Type 0) (o : Option A) (a : A) → o ≡ some a → Yields P o → P a
Yields-some P o a e y = subst (Yields P) e y

Yields-match_addr : (s : List ℕ) → Yields (λ m. length m.0 ≡ 6) (match_addr s)
unfolding match_addr
Yields-match_addr s = Yields-and_match _ (number_then 46 s) _ λ (a, s1) _.
    Yields-and_match _ (number_then 46 s1) _ λ (b, s2) _.
      Yields-and_match _ (number_then 46 s2) _ λ (c, s3) _.
        Yields-and_match _ (number_then 46 s3) _ λ (d, s4) _.
          Yields-and_match _ (number_then 46 s4) _ λ (e, s5) _.
            Yields-and_match _ (number_then 58 s5) _
              λ (f, s6) _. Yields-and_match _ (last_number s6) _ λ port _. refl

all_bytes-All : (ns : List ℕ) → all_bytes ns ≡ true → All (λ b. b < 256) ns
unfolding all_bytes
all_bytes-All [] h = tt
all_bytes-All (n ∷ ns) h = (ground arith, all_bytes-All ns ground arith)

Yields-parse_addr : (s : List ℕ) → Yields IsTextAddr (parse_addr s)
unfolding parse_addr
Yields-parse_addr s = Yields-and_match _ (match_addr s) _ λ (net_id, port) matched.
    elim (Bool-cases (all_bytes net_id && leb port 65535)) [
      | inr bad ↦ rw bad tt
      | inl good ↦ rw good (record {
        six =
            Yields-some (λ m. length m.0 ≡ 6) (match_addr s) (net_id, port) matched
              (Yields-match_addr s);
        bytes = all_bytes-All net_id ground arith;
        port = ground arith;
      })
    ]

-- The text of an address with a NetID of six bytes and a 16-bit port is parsed to that address.
pub parse_addr-string_of :
    (r : Addr)
    → IsTextAddr r
    → (text : List ℕ) × (string_of r ≡ done text) × (parse_addr text ≡ some r)
parse_addr-string_of r v = parse_addr_fields r.net_id r.port v.six v.bytes v.port

-- Whatever text is parsed, the address has a NetID of six bytes and a 16-bit port, and its own text is
-- parsed to it again.
pub parse_addr_again :
    (s : List ℕ) (r : Addr)
    → parse_addr s ≡ some r
    → IsTextAddr r × ((text : List ℕ) × (string_of r ≡ done text) × (parse_addr text ≡ some r))
parse_addr_again s r parsed =
    let v = Yields-some IsTextAddr (parse_addr s) r parsed (Yields-parse_addr s) in
    (v, parse_addr-string_of r v)
