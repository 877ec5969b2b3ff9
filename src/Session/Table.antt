-- ===== src/Session/Table.antt =====
-- session.go, `LoadSymbolTable`: the loop that parses the symbol table of the device into the
-- registry. Slices and reads panic out of range, as they do in Go.
pub mod Safety
pub mod Upload
use goads.Base.{
  ℕ, zero, suc, ◌+◌, ◌||◌, ◌==◌, ltb, leb, ◌&&◌, if◌then◌else◌, Option, none, some, List, [],
  length,
}
use goads.Ams.Outcome.{Outcome, done}
use goads.Slicing.{and_then, slice_of, uint32_at, uint16_at, null_terminated_string}
use goads.Symbol.{nil}
use goads.Session.{SymbolInfo, SymbolRegistry, set}

-- The numbers of an entry, in the order in which they are read.
pub record EntryHeader : Type 0 where
  pub entry_length : ℕ
  pub index_group : ℕ
  pub index_offset : ℕ
  pub size : ℕ
  pub name_length : ℕ
  pub type_length : ℕ
  pub comment_length : ℕ

unfoldable pub read_header : List ℕ → ℕ → ℕ → Outcome EntryHeader
unfolding and_then uint32_at uint16_at
read_header bytes offset entry_length = and_then (uint32_at bytes (offset + 4)) λ group.
    and_then (uint32_at bytes (offset + 8)) λ index_offset.
      and_then (uint32_at bytes (offset + 12)) λ size.
        and_then (uint16_at bytes (offset + 24)) λ names.
          and_then (uint16_at bytes (offset + 26)) λ types.
            and_then (uint16_at bytes (offset + 28)) λ comments. done (record {
              entry_length = entry_length;
              index_group = group;
              index_offset = index_offset;
              size = size;
              name_length = names;
              type_length = types;
              comment_length = comments;
            })

-- The comment may be missing or cut off, and is then empty.
unfoldable pub read_comment : List ℕ → ℕ → ℕ → Outcome (List ℕ)
unfolding and_then slice_of null_terminated_string
read_comment bytes type_end comment_length =
    let comment_start = type_end + 1 in
    let comment_end = comment_start + comment_length in
    if ltb 0 comment_length && leb comment_end (length bytes)
    then and_then (slice_of bytes comment_start comment_end)
        (λ comment. done (null_terminated_string comment))
    else done []

-- The entry and where the next one begins, or `none` for a `break`.
unfoldable pub read_strings : List ℕ → ℕ → EntryHeader → Outcome (Option (SymbolInfo × ℕ))
unfolding and_then slice_of null_terminated_string read_comment
read_strings bytes offset h =
    let name_start = offset + 30 in
    let name_end = name_start + h.name_length in
    let type_start = name_end + 1 in
    let type_end = type_start + h.type_length in
    if ltb (length bytes) name_end
    then done none
    else and_then (slice_of bytes name_start name_end) λ name.
      if ltb (length bytes) type_end
      then done none
      else and_then (slice_of bytes type_start type_end) λ data_type.
        and_then (read_comment bytes type_end h.comment_length) λ comment. done (
          some (
            record {
              name = null_terminated_string name;
              data_type = null_terminated_string data_type;
              size = h.size;
              index_group = h.index_group;
              index_offset = h.index_offset;
              handle = 0;
              comment = comment;
              fields = nil;
            },
            offset + h.entry_length,
          ))

-- The body of the loop.
unfoldable pub parse_entry : List ℕ → ℕ → Outcome (Option (SymbolInfo × ℕ))
unfolding and_then uint32_at read_header read_strings
parse_entry bytes offset =
    if ltb (length bytes) (offset + 30)
    then done none
    else and_then (uint32_at bytes offset) λ entry_length.
      if entry_length == 0 || ltb (length bytes) (offset + entry_length)
      then done none
      else and_then (read_header bytes offset entry_length) (read_strings bytes offset)

-- The loop, on fuel: it sets each symbol that it parses.
unfoldable pub load_from : ℕ → List ℕ → ℕ → SymbolRegistry → Outcome SymbolRegistry
unfolding and_then parse_entry set
load_from zero bytes offset symbols = done symbols
load_from (suc fuel) bytes offset symbols =
    if ltb offset (length bytes)
    then and_then (parse_entry bytes offset) (λ entry. elim entry [
      | none ↦ done symbols
      | some (info, next) ↦ load_from fuel bytes next (set symbols info.name info)
    ])
    else done symbols

-- The parse of the whole answer, from its first byte.
unfoldable pub load_symbol_table : List ℕ → SymbolRegistry → Outcome SymbolRegistry
unfolding load_from
load_symbol_table bytes symbols = load_from (length bytes) bytes 0 symbols
