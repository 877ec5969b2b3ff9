-- ===== src/Session/Operations/Load.antt =====
-- `LoadSymbolTable` on a device that has symbols, and `GetSymbol` behind it.
use goads.Base.{
  ℕ, ◌^◌, ◌<◌, ◌==◌, ◌≡◌, refl, ap, ◌∙◌, leb, true, some, List, ◌++◌, length, if◌then◌else◌, All,
  Bool-cases, inl, inr, arith,
}
use goads.Ams.Addr.{Addr}
use goads.Ams.Outcome.{done}
use goads.Ams.Buffer.{put_uint32}
use goads.Ams.Read.{ReadResponse, new_read_request}
use goads.Link.{Link, ok}
use goads.Slicing.{and_then}
use goads.Typed.RoundTrip.{le_uint32-put}
use goads.Session.{SymbolRegistry}
use goads.Session.Table.{load_symbol_table}
use goads.Session.Table.Upload.{
  TableEntry, IsTableEntry, table_bytes, set_all, load_symbol_table-table_bytes,
}
use goads.Session.Operations.{says_no_symbols, read_at, upload, load_symbols}

four_bytes : (n : ℕ) (rest : List ℕ) → leb 4 (length (put_uint32 n ++ rest)) ≡ true
unfolding put_uint32
four_bytes n rest = ground arith

says_no_symbols-count :
    (count : ℕ) (rest : List ℕ)
    → count < 2 ^ 32
    → says_no_symbols (put_uint32 count ++ rest) ≡ done (count == 0)
unfolding says_no_symbols and_then
says_no_symbols-count count rest fits =
    rw (four_bytes count rest, says_no_symbols)
      (ap (λ n. and_then n (λ c. done (c == 0))) (le_uint32-put count rest fits))

module _ {D : Type 0} (link : Link D) (target sender : Addr) where
  -- Where the device answers the first request with a number of symbols, of 32 bits, and the second one
  -- with the table of some symbols, `LoadSymbolTable` puts these into the registry, in order, over what
  -- was there; where the number is 0, it asks only once and leaves the registry.
  pub load_symbols-table_bytes :
      (es : List TableEntry) (symbols : SymbolRegistry) (count : ℕ) (rest : List ℕ)
      (info table : ReadResponse) (d d1 d2 : D)
      → link.read (new_read_request target sender 0xF00C 0 0x30) d ≡ (some info, d1)
      → info.payload ≡ put_uint32 count ++ rest
      → count < 2 ^ 32
      → link.read (new_read_request target sender 0xF00B 0 0xFFFFFF) d1 ≡ (some table, d2)
      → table.payload ≡ table_bytes es
      → All IsTableEntry es
      → load_symbols link target sender (symbols, d)
        ≡ (if count == 0 then (ok tt, (symbols, d1)) else (ok tt, (set_all symbols es, d2)))
  unfolding load_symbols upload read_at
  load_symbols-table_bytes es symbols count rest info table d d1 d2 asked counted fits given bytes
        v =
      let none_there : says_no_symbols info.payload ≡ done (count == 0) =
        ap says_no_symbols counted ∙ says_no_symbols-count count rest fits in
      let loaded : load_symbol_table table.payload symbols ≡ done (set_all symbols es) =
        ap (λ b. load_symbol_table b symbols) bytes ∙ load_symbol_table-table_bytes es symbols v in
      elim (Bool-cases (count == 0)) [
        | inl zero ↦ rw (asked, load_symbols) (rw none_there (rw zero refl))
        | inr some_there ↦
            rw (asked, load_symbols) (rw none_there (rw some_there (rw given (rw loaded refl))))
      ]
