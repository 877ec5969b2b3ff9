-- ===== src/Session/Operations.antt =====
-- session.go, the operations of a session on its registry and on the device behind its client.
pub mod Mirrors
pub mod Load
use goads.Base.{
  Option, ℕ, ◌==◌, Bool, true, false, none, some, List, [], ◌∷◌, leb, length, if◌then◌else◌,
}
use goads.Ams.Addr.{Addr}
use goads.Ams.Outcome.{Outcome, done, panic}
use goads.Ams.Buffer.{put_uint32}
use goads.Ams.Read.{new_read_request}
use goads.Ams.Write.{new_write_request}
use goads.Slicing.{and_then, uint32_at}
use goads.Symbol.{Fields}
use goads.Link.{Link, Reply, ok, failed, crashed, Task, ◌>>=◌, ◌>>◌, pure, call, or_fail}
use goads.Variable.{no_fields, update_field}
use goads.Variable
use goads.Session.{SymbolInfo, SymbolRegistry, get, set}
use goads.Session.Access.{info_of_symbol, cached_handle, cache_handle}
use goads.Session.Table.{load_symbol_table}

-- A session's registry and the world of its client.
abbrev pub Cached : Type 0 → Type 0
Cached D = SymbolRegistry × D

-- An operation of the client, which leaves the registry.
abbrev pub on_device : {D A : Type 0} → Task D A → Task (Cached D) A
on_device task (symbols, d) = let (reply, d') = task d in (reply, (symbols, d'))

abbrev pub registry : {D : Type 0} → Task (Cached D) SymbolRegistry
registry (symbols, d) = (ok symbols, (symbols, d))

abbrev pub put_registry : {D : Type 0} → SymbolRegistry → Task (Cached D) Unit
put_registry symbols (_, d) = (ok tt, (symbols, d))

-- `binary.LittleEndian.Uint32(data[0:4]) == 0` behind the test of the length
unfoldable pub says_no_symbols : List ℕ → Outcome Bool
unfolding and_then uint32_at
says_no_symbols bytes =
    if leb 4 (length bytes)
    then and_then (uint32_at bytes 0) (λ count. done (count == 0))
    else done false

abbrev pub returned : {W A : Type 0} → Outcome A → Task W A
returned (done a) w = (ok a, w)
returned panic w = (crashed, w)

-- What the pointer to an entry of the registry shows now.
abbrev pub shown : SymbolInfo → Option SymbolInfo → SymbolInfo
shown info none = info
shown info (some current) = current

module _ {D : Type 0} (link : Link D) (target sender : Addr) where
  -- `Read` on the client with the given group and offset: the data of the response.
  unfoldable pub read_at : ℕ → ℕ → ℕ → Task D (List ℕ)
  read_at group offset size = do
    resp ← call (link.read (new_read_request target sender group offset size))
    pure resp.payload

  unfoldable pub write_at : ℕ → ℕ → List ℕ → Task D Unit
  write_at group offset bytes = do
    resp ← call (link.write (new_write_request target sender group offset bytes))
    pure tt

  -- The table, put into the registry.
  unfoldable pub upload : Task (Cached D) Unit
  unfolding read_at load_symbol_table
  upload = do
    bytes ← on_device (read_at 0xF00B 0 0xFFFFFF)
    symbols ← registry
    loaded ← returned (load_symbol_table bytes symbols)
    put_registry loaded

  -- `LoadSymbolTable`
  unfoldable pub load_symbols : Task (Cached D) Unit
  unfolding read_at says_no_symbols upload
  load_symbols = do
    info ← on_device (read_at 0xF00C 0 0x30)
    empty ← returned (says_no_symbols info)
    if empty then pure tt else upload

  -- `GetSymbol`, where nothing is cached
  unfoldable pub fetch_symbol : List ℕ → Task (Cached D) SymbolInfo
  unfolding Variable.get_symbol set
  fetch_symbol name = do
    symbol ← on_device (Variable.get_symbol link target sender name)
    symbols ← registry
    put_registry (set symbols name (info_of_symbol symbol))
    pure (info_of_symbol symbol)

  -- `GetSymbol`
  unfoldable pub session_symbol : List ℕ → Task (Cached D) SymbolInfo
  unfolding get fetch_symbol
  session_symbol name (symbols, d) = elim (get symbols name) [
    | some info ↦ (ok info, (symbols, d))
    | none ↦ fetch_symbol name (symbols, d)
  ]

  unfoldable pub fetch_handle : List ℕ → Task (Cached D) ℕ
  unfolding Variable.get_sym_handle_by_name cache_handle
  fetch_handle name = do
    handle ← on_device (Variable.get_sym_handle_by_name link target sender name)
    symbols ← registry
    put_registry (cache_handle symbols name handle)
    pure handle

  -- `getOrCreateHandle`
  unfoldable pub session_handle : List ℕ → Task (Cached D) ℕ
  unfolding cached_handle fetch_handle
  session_handle name (symbols, d) = elim (cached_handle symbols name) [
    | some handle ↦ (ok handle, (symbols, d))
    | none ↦ fetch_handle name (symbols, d)
  ]

  -- `Read`: the information is the registry's own entry, with the handle that was cached in it behind
  -- its back.
  unfoldable pub session_read : List ℕ → Task (Cached D) (List ℕ × SymbolInfo)
  unfolding session_symbol session_handle Variable.read_value get
  session_read name = do
    info ← session_symbol name
    handle ← session_handle name
    bytes ← on_device (Variable.read_value link target sender handle info.size)
    symbols ← registry
    pure (bytes, shown info (get symbols name))

  -- `Write`
  unfoldable pub session_write : List ℕ → List ℕ → Task (Cached D) Unit
  unfolding session_handle Variable.write_value
  session_write name payload = do
    handle ← session_handle name
    on_device (Variable.write_value link target sender handle payload)

  -- The registry's entry is the object that `info` points to: the handle that was cached behind its
  -- back stays in it.
  unfoldable pub cache_fields : List ℕ → SymbolInfo → Fields → Task (Cached D) Unit
  unfolding get set
  cache_fields name info fields (symbols, d) = elim (get symbols name) [
    | some current ↦ (ok tt, (set symbols name (record current { fields = fields }), d))
    | none ↦ (ok tt, (set symbols name (record info { fields = fields }), d))
  ]

  unfoldable pub fetch_fields : List ℕ → SymbolInfo → Task (Cached D) Fields
  unfolding Variable.get_data_type_info cache_fields
  fetch_fields name info = do
    fields ← on_device (Variable.get_data_type_info link target sender info.data_type)
    cache_fields name info fields
    pure fields

  -- `info.Fields`, asked for and cached unless they are there
  unfoldable pub session_fields : List ℕ → SymbolInfo → Task (Cached D) Fields
  unfolding fetch_fields
  session_fields name info =
      if no_fields info.fields then fetch_fields name info else pure info.fields

  -- `WriteNestedField`
  unfoldable pub session_write_nested_field : List ℕ → List (List ℕ) → List ℕ → Task (Cached D) Unit
  unfolding session_symbol session_handle Variable.read_value session_fields update_field
      Variable.write_value
  session_write_nested_field name path payload = do
    info ← session_symbol name
    handle ← session_handle name
    bytes ← on_device (Variable.read_value link target sender handle info.size)
    fields ← session_fields name info
    updated ← or_fail (update_field fields path payload bytes)
    on_device (Variable.write_value link target sender handle updated)

  -- `ReleaseHandle`
  unfoldable pub release_handle : ℕ → Task D Unit
  unfolding put_uint32 write_at
  release_handle handle = write_at 0xF006 0 (put_uint32 handle)

  -- Whether the error is the first one.
  abbrev pub keep_first : Reply Unit → Reply Unit → Reply Unit
  keep_first (ok _) later = later
  keep_first failed later = failed
  keep_first crashed later = crashed

  -- `Close`, on the symbols in the order in which the map gives them: every handle is released, and
  -- the first error is returned at the end.
  unfoldable pub close_all : SymbolRegistry → Task D Unit
  unfolding release_handle
  close_all [] d = (ok tt, d)
  close_all ((name, info) ∷ symbols) d = elim (info.handle == 0) [
    | true ↦ close_all symbols d
    | false ↦
        let (first, d1) = release_handle info.handle d in
        let (rest, d2) = close_all symbols d1 in (keep_first first rest, d2)
  ]
