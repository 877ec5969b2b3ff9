-- ===== src/Session/Table/Upload.antt =====
-- A symbol table as the device writes it is parsed into its symbols.
use goads.Base.{
  ℕ, zero, suc, ◌+◌, ◌^◌, ◌<◌, ◌≤◌, ◌≡◌, refl, sym, ap, ◌∙◌, List, [], ◌∷◌, ◌++◌, length,
  length-append, ltb, leb, ◌==◌, ◌||◌, ◌&&◌, All, Bool-cases, inl, inr, false, some, arith,
}
use mathlib.Core.List.{append-nil}
use goads.Ams.Outcome.{done}
use goads.Ams.Buffer.{put_uint16, put_uint32}
use goads.Slicing.{uint32_at}
use goads.Symbol.{nil}
use goads.Session.{SymbolInfo, SymbolRegistry, set}
use goads.Session.Table.{
  EntryHeader, read_header, read_comment, read_strings, parse_entry, load_from, load_symbol_table,
}
use goads.Session.Table.Safety.{load_from_behind, load_from_entry}
use goads.Slicing.Stands.{
  Stands, Stands-at, Stands-first, Stands-second, Stands-inside, slice_here, uint32_here,
  Stands-uint32, uint16_here, Stands-uint16, null_terminated_string_id, then_done,
}

-- A symbol as the device describes it.
pub record TableEntry : Type 0 where
  pub index_group : ℕ
  pub index_offset : ℕ
  pub size : ℕ
  pub type_id : ℕ
  pub flags : ℕ
  pub name : List ℕ
  pub data_type : List ℕ
  pub comment : List ℕ

-- Its strings, each with a null byte behind it.
abbrev strings_of : TableEntry → List ℕ
strings_of e = e.name ++ ((0 ∷ []) ++ (e.data_type ++ ((0 ∷ []) ++ (e.comment ++ (0 ∷ [])))))

abbrev entry_length_of : TableEntry → ℕ
entry_length_of e = 33 + length e.name + length e.data_type + length e.comment

unfoldable pub entry_bytes : TableEntry → List ℕ
entry_bytes e =
    put_uint32 (entry_length_of e)
    ++ (put_uint32 e.index_group
        ++ (put_uint32 e.index_offset
            ++ (put_uint32 e.size
                ++ (put_uint32 e.type_id
                    ++ (put_uint32 e.flags
                        ++ (put_uint16 (length e.name)
                            ++ (put_uint16 (length e.data_type)
                                ++ (put_uint16 (length e.comment) ++ strings_of e))))))))

-- The numbers fit their fields, and no string has a null byte of its own.
pub record IsTableEntry (e : TableEntry) : Type 0 where
  pub index_group : e.index_group < 2 ^ 32
  pub index_offset : e.index_offset < 2 ^ 32
  pub size : e.size < 2 ^ 32
  pub name_fits : length e.name < 2 ^ 16
  pub type_fits : length e.data_type < 2 ^ 16
  pub comment_fits : length e.comment < 2 ^ 16
  pub name : All (λ b. 0 < b) e.name
  pub data_type : All (λ b. 0 < b) e.data_type
  pub comment : All (λ b. 0 < b) e.comment

-- What the parse makes of it.
abbrev pub info_of : TableEntry → SymbolInfo
info_of e = record {
  name = e.name;
  data_type = e.data_type;
  size = e.size;
  index_group = e.index_group;
  index_offset = e.index_offset;
  handle = 0;
  comment = e.comment;
  fields = nil;
}

abbrev header_of : TableEntry → EntryHeader
header_of e = record {
  entry_length = entry_length_of e;
  index_group = e.index_group;
  index_offset = e.index_offset;
  size = e.size;
  name_length = length e.name;
  type_length = length e.data_type;
  comment_length = length e.comment;
}

length-entry_bytes : (e : TableEntry) → length (entry_bytes e) ≡ entry_length_of e
unfolding entry_bytes put_uint32 put_uint16
length-entry_bytes e = simp length-append (omega arith)

empty : (bs : List ℕ) → length bs ≡ 0 → bs ≡ []
empty [] h = refl
empty (b ∷ bs) h = absurd (omega arith)

comment_here :
    (e : TableEntry) (bytes : List ℕ) (at : ℕ)
    → All (λ b. 0 < b) e.comment
    → Stands (e.comment ++ (0 ∷ [])) (at + 1) bytes
    → read_comment bytes at (length e.comment) ≡ done e.comment
unfolding read_comment
comment_here e bytes at clean s =
    let here = Stands-first e.comment (0 ∷ []) s in
    let inside = Stands-inside e.comment here in
    elim (Bool-cases (ltb 0 (length e.comment) && leb (at + 1 + length e.comment) (length bytes))) [
      | inl there ↦
          rw (there, read_comment)
            (then_done _ (slice_here e.comment bytes (at + 1) here)
              (ap done (null_terminated_string_id e.comment clean)))
      | inr absent ↦ rw (absent, read_comment) (ap done (sym (empty e.comment (ground arith))))
    ]

strings_here :
    (e : TableEntry) (bytes : List ℕ) (at : ℕ)
    → IsTableEntry e
    → Stands (strings_of e) (at + 30) bytes
    → read_strings bytes at (header_of e) ≡ done (some (info_of e, at + entry_length_of e))
unfolding read_strings
strings_here e bytes at v s =
    let name_here = Stands-first e.name _ s in
    let type_stands = Stands-second (0 ∷ []) _ (Stands-second e.name _ s) in
    let type_here = Stands-first e.data_type _ type_stands in
    let comment_stands = Stands-second (0 ∷ []) _ (Stands-second e.data_type _ type_stands) in
    let name_inside = Stands-inside e.name name_here in
    let type_inside = Stands-inside e.data_type type_here in
    let named : ltb (length bytes) (at + 30 + length e.name) ≡ false = ground arith in
    let typed : ltb (length bytes) (at + 30 + length e.name + 1 + length e.data_type) ≡ false =
      ground arith in
    rw (named, read_strings)
      (then_done _ (slice_here e.name bytes (at + 30) name_here) (
        rw typed (
          then_done _ (slice_here e.data_type bytes (at + 30 + length e.name + 1) type_here) (
            then_done _
              (comment_here e bytes (at + 30 + length e.name + 1 + length e.data_type) v.comment
                comment_stands)
              (rw (null_terminated_string_id e.name v.name)
                (rw (null_terminated_string_id e.data_type v.data_type) refl))))))

header_here :
    (e : TableEntry) (bytes : List ℕ) (at : ℕ)
    → IsTableEntry e
    → Stands (entry_bytes e) at bytes
    → (uint32_at bytes at ≡ done (entry_length_of e))
      × (read_header bytes at (entry_length_of e) ≡ done (header_of e))
      × Stands (strings_of e) (at + 30) bytes
unfolding entry_bytes read_header
header_here e bytes at v s =
    let s4 = Stands-uint32 (entry_length_of e) _ (at + 4) refl s in
    let s8 = Stands-uint32 e.index_group _ (at + 8) (omega arith) s4 in
    let s12 = Stands-uint32 e.index_offset _ (at + 12) (omega arith) s8 in
    let s16 = Stands-uint32 e.size _ (at + 16) (omega arith) s12 in
    let s20 = Stands-uint32 e.type_id _ (at + 20) (omega arith) s16 in
    let s24 = Stands-uint32 e.flags _ (at + 24) (omega arith) s20 in
    let s26 = Stands-uint16 (length e.name) _ (at + 26) (omega arith) s24 in
    let s28 = Stands-uint16 (length e.data_type) _ (at + 28) (omega arith) s26 in
    let s30 = Stands-uint16 (length e.comment) _ (at + 30) (omega arith) s28 in
    (
      uint32_here (entry_length_of e) _ bytes at (omega arith) s,
      then_done _ (uint32_here e.index_group _ bytes (at + 4) v.index_group s4) (
          then_done _ (uint32_here e.index_offset _ bytes (at + 8) v.index_offset s8) (
            then_done _ (uint32_here e.size _ bytes (at + 12) v.size s12) (
              then_done _ (uint16_here (length e.name) _ bytes (at + 24) v.name_fits s24) (
                then_done _ (uint16_here (length e.data_type) _ bytes (at + 26) v.type_fits s26) (
                  then_done _ (uint16_here (length e.comment) _ bytes (at + 28) v.comment_fits s28)
                    refl))))),
      s30,
    )

parse_entry_here :
    (e : TableEntry) (bytes : List ℕ) (at : ℕ)
    → IsTableEntry e
    → Stands (entry_bytes e) at bytes
    → parse_entry bytes at ≡ done (some (info_of e, at + entry_length_of e))
unfolding parse_entry
parse_entry_here e bytes at v s =
    let (first, numbers, strings) = header_here e bytes at v s in
    let inside : at + entry_length_of e ≤ length bytes =
      omega (arith, Stands-inside (entry_bytes e) s, length-entry_bytes e) in
    let long : ltb (length bytes) (at + 30) ≡ false = ground arith in
    let goes : (entry_length_of e == 0 || ltb (length bytes) (at + entry_length_of e)) ≡ false =
      ground arith in
    rw (long, parse_entry)
      (then_done _ first (rw goes (then_done _ numbers (strings_here e bytes at v strings))))

-- The table of some symbols, and the registry with all of them set in order.
unfoldable pub table_bytes : List TableEntry → List ℕ
table_bytes [] = []
table_bytes (e ∷ es) = entry_bytes e ++ table_bytes es

unfoldable pub set_all : SymbolRegistry → List TableEntry → SymbolRegistry
set_all symbols [] = symbols
set_all symbols (e ∷ es) = set_all (set symbols e.name (info_of e)) es

entries_here :
    (es : List TableEntry) (fuel : ℕ) (bytes : List ℕ) (at : ℕ) (symbols : SymbolRegistry)
    → All IsTableEntry es
    → Stands (table_bytes es) at bytes
    → at + length (table_bytes es) ≡ length bytes
    → length (table_bytes es) ≤ fuel
    → load_from fuel bytes at symbols ≡ done (set_all symbols es)
unfolding table_bytes set_all
entries_here [] fuel bytes at symbols v s end enough =
    load_from_behind fuel bytes at symbols (omega arith)
entries_here (e ∷ es) zero bytes at symbols v s end enough =
    absurd (omega (arith, length-append (entry_bytes e) (table_bytes es), length-entry_bytes e))
entries_here (e ∷ es) (suc fuel) bytes at symbols (v, vs) s end enough =
    let size = length-append (entry_bytes e) (table_bytes es) in
    let entry_size = length-entry_bytes e in
    let here = Stands-first (entry_bytes e) (table_bytes es) s in
    let behind =
      Stands-at (table_bytes es) (ap (λ n. at + n) entry_size)
        (Stands-second (entry_bytes e) (table_bytes es) s) in
    load_from_entry fuel bytes at symbols (info_of e) (at + entry_length_of e)
      (omega (arith, size, entry_size)) (parse_entry_here e bytes at v here)
    ∙ entries_here es fuel bytes (at + entry_length_of e) (set symbols e.name (info_of e)) vs behind
        (omega (arith, size, entry_size)) (omega (arith, size, entry_size))

-- The table of any symbols, their numbers within their fields and their strings free of null bytes,
-- is parsed into the registry as those symbols, each set under its name in the order of the table.
pub load_symbol_table-table_bytes :
    (es : List TableEntry) (symbols : SymbolRegistry)
    → All IsTableEntry es
    → load_symbol_table (table_bytes es) symbols ≡ done (set_all symbols es)
unfolding load_symbol_table
load_symbol_table-table_bytes es symbols v =
    entries_here es (length (table_bytes es)) (table_bytes es) 0 symbols v
      ([], [], sym (append-nil (table_bytes es)), refl) (omega arith) (omega arith)
