-- ===== src/Tests/Sessions.antt =====
-- A symbol table of two symbols, and a session that reads one.
use goads.Base.{
  ◌==◌, ◌++◌, All, ℕ, ◌+◌, ◌≡◌, refl, arith, if◌then◌else◌, Option, none, some, List, [], ◌∷◌,
  replicate,
}
use goads.Ams.Outcome.{done}
use goads.Ams.Read.{ReadRequest, ReadResponse, new_read_request}
use goads.Symbol.{Fields, nil}
use goads.Symbol.Parse.{Symbol, parse_symbol, parse_handle, parse_data_type}
use goads.Symbol.Parse.Safety.{parse_symbol_ends}
use goads.Session.{SymbolRegistry, get}
use goads.Link.{Link, ok}
use goads.Session.Operations.{load_symbols}
use goads.Session.Operations.Load.{load_symbols-table_bytes}
use goads.Session.Table.{load_from, load_symbol_table}
use goads.Session.Table.Safety.{load_symbol_table_ends}
use goads.Session.Table.Upload.{TableEntry, IsTableEntry, table_bytes, set_all}
use goads.Session.Access.{read_of, write_of}
use goads.Session.Access.Cache.{read_of_again, read_of-write_of}
use goads.Ams.Buffer.{put_uint32}
use goads.Tests.Data.{target, sender, tcp, ams}
use goads.Tests.Writes.{read_write_response_data}

abbrev motor_name : List ℕ
motor_name = 109 ∷ 111 ∷ []

abbrev motor_entry : TableEntry
motor_entry = record {
  index_group = 0x4040;
  index_offset = 16;
  size = 2;
  type_id = 2;
  flags = 8;
  name = motor_name;
  data_type = 73 ∷ 78 ∷ 84 ∷ [];
  comment = [];
}

abbrev pump_entry : TableEntry
pump_entry = record {
  index_group = 0x4040;
  index_offset = 18;
  size = 1;
  type_id = 33;
  flags = 8;
  name = 112 ∷ [];
  data_type = 66 ∷ [];
  comment = 99 ∷ 100 ∷ [];
}

entries-IsTableEntry : All IsTableEntry (motor_entry ∷ pump_entry ∷ [])
entries-IsTableEntry = (
  record {
    index_group = omega arith;
    index_offset = omega arith;
    size = omega arith;
    name_fits = omega arith;
    type_fits = omega arith;
    comment_fits = omega arith;
    name = (omega arith, (omega arith, tt));
    data_type = (omega arith, (omega arith, (omega arith, tt)));
    comment = tt;
  },
  (
    record {
      index_group = omega arith;
      index_offset = omega arith;
      size = omega arith;
      name_fits = omega arith;
      type_fits = omega arith;
      comment_fits = omega arith;
      name = (omega arith, tt);
      data_type = (omega arith, tt);
      comment = (omega arith, (omega arith, tt));
    },
    tt,
  ),
)

-- A device that answers with a count of two and with the table.
abbrev answer : ReadRequest → ReadResponse
answer r = record {
  tcp_header = tcp;
  ams_header = ams 2 5 77;
  result = 0;
  length = 0;
  payload =
      if r.index_group == 0xF00C
      then put_uint32 2 ++ (9 ∷ [])
      else table_bytes (motor_entry ∷ pump_entry ∷ []);
}

abbrev table_link : Link ℕ
table_link = record {
  read = λ r d. (some (answer r), d + 1);
  write = λ r d. (none, d);
  read_write = λ r d. (none, d);
  add_notification = λ r d. (none, d);
  delete_notification = λ r d. (none, d);
}

load_symbols-table_bytes_example : load_symbols table_link target sender ([], 0) ≡ (
    if 2 == 0 then (ok tt, ([], 1)) else (ok tt, (set_all [] (motor_entry ∷ pump_entry ∷ []), 2)))
unfolding new_read_request
load_symbols-table_bytes_example =
    load_symbols-table_bytes table_link target sender (motor_entry ∷ pump_entry ∷ []) [] 2 (9 ∷ [])
      (answer (new_read_request target sender 0xF00C 0 0x30))
      (answer (new_read_request target sender 0xF00B 0 0xFFFFFF)) 0 1 2 refl refl (omega arith) refl
      refl entries-IsTableEntry

load_symbol_table_ends_example :
    (loaded : SymbolRegistry) × (load_symbol_table (replicate 40 1) [] ≡ done loaded)
    × ((extra : ℕ) → load_from (40 + extra) (replicate 40 1) 0 [] ≡ done loaded)
load_symbol_table_ends_example = load_symbol_table_ends (replicate 40 1) []

parse_symbol_ends_example :
    ((symbol : Option Symbol) × (parse_symbol motor_name (replicate 32 1) ≡ done symbol))
    × ((handle : Option ℕ) × (parse_handle read_write_response_data ≡ done handle))
    × ((fields : Option Fields) × (parse_data_type (replicate 32 1) ≡ done fields))
parse_symbol_ends_example = parse_symbol_ends motor_name (replicate 32 1) read_write_response_data

abbrev motor : Symbol
motor = record { name = motor_name; data_type = 73 ∷ 78 ∷ 84 ∷ []; size = 2; fields = nil }

nothing_cached : get [] motor_name ≡ none
unfolding get
nothing_cached = refl

read_of_again_example :
    let symbols' = (read_of target sender [] motor_name (some motor) (some 7)).1 in
    let request = new_read_request target sender 0xF005 7 2 in
    (read_of target sender [] motor_name (some motor) (some 7) ≡ (some request, symbols'))
    × ((later : Option Symbol) (handle : Option ℕ)
        → read_of target sender symbols' motor_name later handle ≡ (some request, symbols'))
read_of_again_example =
    read_of_again target sender motor_name [] motor 7 (omega arith) nothing_cached

read_of-write_of_example :
    let symbols' = (write_of target sender [] motor_name (1 ∷ 0 ∷ []) (some 7)).1 in
    read_of target sender symbols' motor_name (some motor) none
    ≡ (some (new_read_request target sender 0xF005 7 0), symbols')
read_of-write_of_example =
    read_of-write_of target sender motor_name [] (1 ∷ 0 ∷ []) 7 (some motor) none (omega arith)
      nothing_cached
