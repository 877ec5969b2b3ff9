-- ===== src/Session/Access.antt =====
-- session.go, how a session finds a symbol and its handle, and what it then asks the device for. What
-- the client returns is an argument, `none` where it returns an error.
pub mod Cache
use goads.Base.{ℕ, ◌==◌, if◌then◌else◌, Option, none, some, List, []}
use goads.Ams.Addr.{Addr}
use goads.Ams.Read.{ReadRequest, new_read_request}
use goads.Ams.Write.{WriteRequest, new_write_request}
use goads.Session.{SymbolInfo, SymbolRegistry, get, set}
use goads.Symbol.{nil}
use goads.Symbol.Parse.{Symbol}

-- The cached information of a symbol that the device has described.
abbrev pub info_of_symbol : Symbol → SymbolInfo
info_of_symbol symbol = record {
  name = symbol.name;
  data_type = symbol.data_type;
  size = symbol.size;
  index_group = 0;
  index_offset = 0;
  handle = 0;
  comment = [];
  fields = symbol.fields;
}

-- `Session.GetSymbol`, where `fetch` is what `Client.GetSymbol` returns if it is called.
unfoldable pub get_symbol :
    SymbolRegistry → List ℕ → Option Symbol → Option SymbolInfo × SymbolRegistry
unfolding get set
get_symbol symbols name fetch = elim (get symbols name) [
  | some info ↦ (some info, symbols)
  | none ↦ elim fetch [
    | none ↦ (none, symbols)
    | some symbol ↦ (some (info_of_symbol symbol), set symbols name (info_of_symbol symbol))
  ]
]

-- The minimal information with a handle.
abbrev pub bare_info : List ℕ → ℕ → SymbolInfo
bare_info name handle = record {
  name = name;
  data_type = [];
  size = 0;
  index_group = 0;
  index_offset = 0;
  handle = handle;
  comment = [];
  fields = nil;
}

-- The registry once the device has given a handle.
unfoldable pub cache_handle : SymbolRegistry → List ℕ → ℕ → SymbolRegistry
unfolding get set
cache_handle symbols name handle = elim (get symbols name) [
  | some info ↦ set symbols name (record info { handle = handle })
  | none ↦ set symbols name (bare_info name handle)
]

-- The handle that the registry has, if any: 0 stands for none.
unfoldable pub cached_handle : SymbolRegistry → List ℕ → Option ℕ
unfolding get
cached_handle symbols name = elim (get symbols name) [
  | none ↦ none
  | some info ↦ if info.handle == 0 then none else some info.handle
]

-- `getOrCreateHandle`, where `fetch` is what `Client.GetSymHandleByName` returns if it is called.
unfoldable pub get_or_create_handle : SymbolRegistry → List ℕ → Option ℕ → Option ℕ × SymbolRegistry
unfolding cached_handle cache_handle
get_or_create_handle symbols name fetch = elim (cached_handle symbols name) [
  | some handle ↦ (some handle, symbols)
  | none ↦ elim fetch [
    | none ↦ (none, symbols)
    | some handle ↦ (some handle, cache_handle symbols name handle)
  ]
]

-- The request for the value of a symbol, if there is a handle.
unfoldable pub read_with :
    Addr → Addr → SymbolInfo → Option ℕ × SymbolRegistry → Option ReadRequest × SymbolRegistry
read_with target sender info (none, symbols) = (none, symbols)
read_with target sender info (some handle, symbols) =
    (some (new_read_request target sender 0xF005 handle info.size), symbols)

unfoldable pub read_found :
    Addr
    → Addr
    → List ℕ
    → Option ℕ
    → Option SymbolInfo × SymbolRegistry
    → Option ReadRequest × SymbolRegistry
unfolding get_or_create_handle read_with
read_found target sender name handle (none, symbols) = (none, symbols)
read_found target sender name handle (some info, symbols) =
    read_with target sender info (get_or_create_handle symbols name handle)

-- `Session.Read` up to its request
unfoldable pub read_of :
    Addr
    → Addr
    → SymbolRegistry
    → List ℕ
    → Option Symbol
    → Option ℕ
    → Option ReadRequest × SymbolRegistry
unfolding get_symbol read_found
read_of target sender symbols name symbol handle =
    read_found target sender name handle (get_symbol symbols name symbol)

unfoldable pub write_with :
    Addr → Addr → List ℕ → Option ℕ × SymbolRegistry → Option WriteRequest × SymbolRegistry
write_with target sender payload (none, symbols) = (none, symbols)
write_with target sender payload (some handle, symbols) =
    (some (new_write_request target sender 0xF005 handle payload), symbols)

-- `Session.Write` up to its request
unfoldable pub write_of :
    Addr → Addr → SymbolRegistry → List ℕ → List ℕ → Option ℕ → Option WriteRequest × SymbolRegistry
unfolding get_or_create_handle write_with
write_of target sender symbols name payload handle =
    write_with target sender payload (get_or_create_handle symbols name handle)
