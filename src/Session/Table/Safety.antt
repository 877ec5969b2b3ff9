-- ===== src/Session/Table/Safety.antt =====
-- The parse of a symbol table ends without a panic on any bytes.
use goads.Base.{
  ◌⊎◌, ℕ, zero, suc, ◌+◌, ◌<◌, ◌≤◌, ◌≡◌, refl, sym, ap, ◌∙◌, Bool-cases, inl, inr, Option, none,
  some, List, [], length, ltb, leb, ◌==◌, ◌||◌, ◌&&◌, arith,
}
use goads.Ams.Outcome.{Outcome, done}
use goads.Slicing.{and_then}
use goads.Slicing.Returns.{
  Returns, Any, Returns-and_then, Returns-slice_of, Returns-uint32_at, Returns-uint16_at,
}
use goads.Session.{SymbolInfo, SymbolRegistry, set}
use goads.Session.Table.{
  EntryHeader, read_header, read_comment, read_strings, parse_entry, load_from, load_symbol_table,
}

Returns-read_header :
    (bytes : List ℕ) (offset entry_length : ℕ)
    → offset + 30 ≤ length bytes
    → Returns (λ h. h.entry_length ≡ entry_length) (read_header bytes offset entry_length)
unfolding read_header
Returns-read_header bytes offset entry_length inside =
    Returns-and_then _ _ (Returns-uint32_at bytes (offset + 4) (omega arith)) λ group _.
      Returns-and_then _ _ (Returns-uint32_at bytes (offset + 8) (omega arith)) λ index_offset _.
        Returns-and_then _ _ (Returns-uint32_at bytes (offset + 12) (omega arith)) λ size _.
          Returns-and_then _ _ (Returns-uint16_at bytes (offset + 24) (omega arith)) λ names _.
            Returns-and_then _ _ (Returns-uint16_at bytes (offset + 26) (omega arith)) λ types _.
              Returns-and_then _ _ (Returns-uint16_at bytes (offset + 28) (omega arith))
                λ comments _. (_, refl, refl)

Returns-read_comment :
    (bytes : List ℕ) (type_end comment_length : ℕ)
    → Returns Any (read_comment bytes type_end comment_length)
unfolding read_comment
Returns-read_comment bytes type_end comment_length =
    elim (Bool-cases (ltb 0 comment_length && leb (type_end + 1 + comment_length) (length bytes))) [
      | inr absent ↦ ([], rw absent refl, tt)
      | inl there ↦ rw there (
          Returns-and_then _ _
            (Returns-slice_of bytes (type_end + 1) (type_end + 1 + comment_length) (omega arith)
              (ground arith))
            λ part _. (_, refl, tt))
    ]

-- The next entry begins behind this one.
abbrev Advances : ℕ → Option (SymbolInfo × ℕ) → Type 0
Advances offset none = Unit
Advances offset (some (info, next)) = offset < next

Returns-read_strings :
    (bytes : List ℕ) (offset : ℕ) (h : EntryHeader)
    → 0 < h.entry_length
    → Returns (Advances offset) (read_strings bytes offset h)
unfolding read_strings
Returns-read_strings bytes offset h moves =
    elim (Bool-cases (ltb (length bytes) (offset + 30 + h.name_length))) [
      | inl cut ↦ (none, rw cut refl, tt)
      | inr named ↦ rw named (
          Returns-and_then _ _
            (Returns-slice_of bytes (offset + 30) (offset + 30 + h.name_length) (omega arith)
              (ground arith))
            λ name _.
              elim (Bool-cases
                (ltb (length bytes) (offset + 30 + h.name_length + 1 + h.type_length))) [
                  | inl cut ↦ (none, rw cut refl, tt)
                  | inr typed ↦ rw typed (
                      Returns-and_then _ _
                        (Returns-slice_of bytes (offset + 30 + h.name_length + 1)
                          (offset + 30 + h.name_length + 1 + h.type_length) (omega arith)
                          (ground arith))
                        λ data_type _.
                          Returns-and_then _ _
                            (Returns-read_comment bytes
                              (offset + 30 + h.name_length + 1 + h.type_length) h.comment_length)
                            λ comment _. (_, refl, omega arith))
                ])
    ]

Returns-parse_entry :
    (bytes : List ℕ) (offset : ℕ) → Returns (Advances offset) (parse_entry bytes offset)
unfolding parse_entry
Returns-parse_entry bytes offset = elim (Bool-cases (ltb (length bytes) (offset + 30))) [
  | inl cut ↦ (none, rw cut refl, tt)
  | inr inside ↦ rw inside (
      Returns-and_then _ _ (Returns-uint32_at bytes offset (ground arith)) λ entry_length _.
        elim (Bool-cases (entry_length == 0 || ltb (length bytes) (offset + entry_length))) [
          | inl stops ↦ (none, rw stops refl, tt)
          | inr goes ↦ rw goes (
              Returns-and_then _ _ (Returns-read_header bytes offset entry_length (ground arith))
                λ h same. Returns-read_strings bytes offset h (ground arith))
        ])
]

-- An entry is parsed, which advances, or the loop ends.
entry_cases :
    (offset : ℕ) (call : Outcome (Option (SymbolInfo × ℕ)))
    → Returns (Advances offset) call
    → (call ≡ done none)
      ⊎ ((info : SymbolInfo) × (next : ℕ) × (call ≡ done (some (info, next))) × (offset < next))
entry_cases offset call (none, stops, _) = inl stops
entry_cases offset call (some (info, next), parsed, moves) = inr (info, next, parsed, moves)

-- One turn of the loop: behind the bytes, at a `break`, and at an entry.
pub load_from_behind :
    (fuel : ℕ) (bytes : List ℕ) (offset : ℕ) (symbols : SymbolRegistry)
    → length bytes ≤ offset
    → load_from fuel bytes offset symbols ≡ done symbols
unfolding load_from
load_from_behind zero bytes offset symbols behind = refl
load_from_behind (suc fuel) bytes offset symbols behind = ground arith

load_from_break :
    (fuel : ℕ) (bytes : List ℕ) (offset : ℕ) (symbols : SymbolRegistry)
    → parse_entry bytes offset ≡ done none
    → load_from fuel bytes offset symbols ≡ done symbols
unfolding load_from and_then
load_from_break zero bytes offset symbols stops = refl
load_from_break (suc fuel) bytes offset symbols stops = ground arith

pub load_from_entry :
    (fuel : ℕ) (bytes : List ℕ) (offset : ℕ) (symbols : SymbolRegistry) (info : SymbolInfo)
    (next : ℕ)
    → offset < length bytes
    → parse_entry bytes offset ≡ done (some (info, next))
    → load_from (suc fuel) bytes offset symbols
      ≡ load_from fuel bytes next (set symbols info.name info)
unfolding load_from and_then
load_from_entry fuel bytes offset symbols info next before parsed = ground arith

-- From any offset, fuel for the bytes behind it is enough, and more changes nothing.
load_from_ends :
    (fuel : ℕ) (bytes : List ℕ) (offset : ℕ) (symbols : SymbolRegistry)
    → length bytes ≤ offset + fuel
    → (loaded : SymbolRegistry) × ((extra : ℕ)
        → load_from (fuel + extra) bytes offset symbols ≡ done loaded)
load_from_ends zero bytes offset symbols enough =
    (symbols, λ extra. load_from_behind (0 + extra) bytes offset symbols (omega arith))
load_from_ends (suc fuel) bytes offset symbols enough =
    elim (Bool-cases (ltb offset (length bytes))) [
      | inr behind ↦ (
        symbols,
        λ extra. load_from_behind (suc fuel + extra) bytes offset symbols (ground arith),
      )
      | inl before ↦ elim (entry_cases offset _ (Returns-parse_entry bytes offset)) [
        | inl stops ↦
            (symbols, λ extra. load_from_break (suc fuel + extra) bytes offset symbols stops)
        | inr (info, next, parsed, moves) ↦
            let (loaded, rest) =
              load_from_ends fuel bytes next (set symbols info.name info) (ground arith) in
            (
              loaded,
              λ extra.
                  let one_more : suc fuel + extra ≡ suc (fuel + extra) = omega arith in
                  rw one_more (
                    load_from_entry (fuel + extra) bytes offset symbols info next (ground arith)
                      parsed
                    ∙ rest extra),
            )
      ]
    ]

-- On any bytes the parse ends with a registry and no panic, and any more turns of its loop would
-- change nothing.
pub load_symbol_table_ends :
    (bytes : List ℕ) (symbols : SymbolRegistry)
    → (loaded : SymbolRegistry) × (load_symbol_table bytes symbols ≡ done loaded)
      × ((extra : ℕ) → load_from (length bytes + extra) bytes 0 symbols ≡ done loaded)
unfolding load_symbol_table
load_symbol_table_ends bytes symbols =
    let (loaded, same) = load_from_ends (length bytes) bytes 0 symbols (omega arith) in
    let no_more : length bytes + 0 ≡ length bytes = omega arith in
    (loaded, ap (λ fuel. load_from fuel bytes 0 symbols) (sym no_more) ∙ same 0, same)
