-- ===== src/Tests/Devices.antt =====
-- A device with one struct variable.
use goads.Base.{ℕ, ◌==◌, ◌≡◌, ◌≢◌, refl, arith, if◌then◌else◌, some, List, [], ◌∷◌, length, take}
use goads.Ams.Buffer.{put_uint32, put_uint16, le_uint32, le_uint16}
use goads.Ams.Header.{AmsHeader}
use goads.Ams.Read.{new_read_request}
use goads.Ams.Write.{new_write_request}
use goads.Ams.ReadWrite.{new_read_write_request}
use goads.Symbol.{nil}
use goads.Symbol.Parse.{Symbol}
use goads.Symbol.Parse.Describe.{TypeEntry, item_bytes, fields_bytes, type_bytes, fields_of_entries}
use goads.Link.{Link, ok}
use goads.Variable
use goads.Variable.{load_fields}
use goads.Variable.Memory.{Device, Describes}
use goads.Session.Table.Upload.{TableEntry, entry_bytes}
use goads.Tests.Data.{target, sender, tcp, ams}

-- The type `s` of fields `a` of one byte and `b` of two.
abbrev entry : ℕ → ℕ → List ℕ → List ℕ → TypeEntry
entry size offset name data_type = record {
  version = 1;
  hash = 0;
  type_hash = 0;
  size = size;
  offset = offset;
  type_id = 65;
  flags = 2;
  array_dim = 0;
  name = name;
  data_type = data_type;
  comment = [];
}

abbrev pub struct_entry : TypeEntry
struct_entry = entry 3 0 (115 ∷ []) []

abbrev pub field_entries : List TypeEntry
field_entries = entry 1 0 (97 ∷ []) (66 ∷ []) ∷ entry 2 1 (98 ∷ []) (73 ∷ []) ∷ []

abbrev struct_variable : TableEntry
struct_variable = record {
  index_group = 0x4040;
  index_offset = 0;
  size = 3;
  type_id = 65;
  flags = 8;
  name = 112 ∷ [];
  data_type = 115 ∷ [];
  comment = [];
}

abbrev answered_header : ℕ → AmsHeader
answered_header cmd = record (ams cmd 5 77) { error_code = 0 }

-- The values under the handles.
abbrev pub World : Type 0
World = ℕ → List ℕ

abbrev read_write_answer : ℕ → List ℕ
read_write_answer group =
    if group == 0xF009
    then entry_bytes struct_variable
    else if group == 0xF011
    then type_bytes struct_entry field_entries
    else put_uint32 7

abbrev pub toy : Link World
toy = record {
  read = λ r d. (
    some (record {
      tcp_header = tcp;
      ams_header = answered_header 2;
      result = 0;
      length = r.length;
      payload = take r.length (d r.index_offset);
    }),
    d,
  );
  write = λ r d. (
    some (record { tcp_header = tcp; ams_header = answered_header 3; result = 0 }),
    λ h. if h == r.index_offset then r.payload else d h,
  );
  read_write = λ r d. (
    some (record {
      tcp_header = tcp;
      ams_header = answered_header 9;
      result = 0;
      length = length (read_write_answer r.index_group);
      payload = read_write_answer r.index_group;
    }),
    d,
  );
  add_notification = λ r d. (
    some (record {
      tcp_header = tcp;
      ams_header = answered_header 6;
      result = 0;
      notification_handle = 9;
    }),
    d,
  );
  delete_notification =
      λ r d. (some (record { tcp_header = tcp; ams_header = answered_header 7; result = 0 }), d);
}

pub stored : (h : ℕ) (bytes old : List ℕ) → (if h == h then bytes else old) ≡ bytes
stored h bytes old = ground arith

pub elsewhere : (h k : ℕ) (bytes old : List ℕ) → k ≢ h → (if k == h then bytes else old) ≡ old
elsewhere h k bytes old other = ground (arith, other)

unfoldable pub toy_device : Device toy
unfolding new_read_request new_write_request
toy_device = record {
  value = λ d. d;
  reads = λ t s h n d. (_, refl, refl);
  writes = λ t s h bytes d same.
      (_, _, refl, stored h bytes (d h), λ k other. elsewhere h k bytes (d k) other);
}

abbrev pub start_world : World
start_world h = if h == 7 then 1 ∷ 2 ∷ 3 ∷ [] else []

abbrev pub struct_symbol : Symbol
struct_symbol = record { name = 112 ∷ []; data_type = 115 ∷ []; size = 3; fields = nil }

toy_symbol :
    (d : World) → Variable.get_symbol toy target sender (112 ∷ []) d ≡ (ok struct_symbol, d)
unfolding Variable.get_symbol new_read_write_request entry_bytes put_uint32 put_uint16 le_uint32
    le_uint16
toy_symbol d = refl

toy_handle :
    (d : World) → Variable.get_sym_handle_by_name toy target sender (112 ∷ []) d ≡ (ok 7, d)
unfolding Variable.get_sym_handle_by_name new_read_write_request put_uint32 put_uint16 le_uint32
    le_uint16
toy_handle d = refl

toy_fields :
    (d : World)
    → load_fields toy target sender struct_symbol d ≡ (ok (fields_of_entries field_entries), d)
unfolding load_fields new_read_write_request type_bytes item_bytes fields_bytes put_uint32
    put_uint16 le_uint32 le_uint16
toy_fields d = refl

pub toy-Describes :
    (d : World)
    → 3 ≡ length (d 7)
    → Describes toy_device target sender d
        (112 ∷ [])
        struct_symbol
        7
        (fields_of_entries field_entries)
unfolding toy_device
toy-Describes d whole = record {
  symbol_given = toy_symbol d;
  handle_given = toy_handle d;
  fields_given = toy_fields d;
  whole = whole;
}
