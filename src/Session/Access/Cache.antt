-- ===== src/Session/Access/Cache.antt =====
-- What a session has found once it asks no more.
use goads.Base.{
  ℕ, ◌≡◌, ◌≢◌, refl, sym, ap, ◌∙◌, Option, none, some, List, arith, Option-cases, inl, inr,
}
use goads.Ams.Addr.{Addr}
use goads.Ams.Read.{new_read_request}
use goads.Session.{SymbolInfo, SymbolRegistry, get, set}
use goads.Session.Registry.{get-set}
use goads.Base.Bytes.{same_bytes_refl}
use goads.Symbol.Parse.{Symbol}
use goads.Session.Access.{
  bare_info, info_of_symbol, get_symbol, cache_handle, cached_handle, get_or_create_handle,
  read_with, read_found, read_of, write_with, write_of,
}

pub set_found :
    (symbols : SymbolRegistry) (name : List ℕ) (info : SymbolInfo)
    → get (set symbols name info) name ≡ some info
set_found symbols name info = get-set symbols name name info ∙ ground (arith, same_bytes_refl name)

cached_after :
    (symbols : SymbolRegistry) (name : List ℕ) (handle : ℕ)
    → handle ≢ 0
    → cached_handle (cache_handle symbols name handle) name ≡ some handle
unfolding cached_handle cache_handle
cached_after symbols name handle given = elim (Option-cases (get symbols name)) [
  | inl new ↦ rw (new, cache_handle) (rw (set_found symbols name _, cached_handle) (ground arith))
  | inr (info, e) ↦
      rw (e, cache_handle) (rw (set_found symbols name _, cached_handle) (ground arith))
]

module _ (target sender : Addr) (name : List ℕ) where
  symbol_known :
      (symbols : SymbolRegistry) (info : SymbolInfo) (symbol : Option Symbol)
      → get symbols name ≡ some info
      → get_symbol symbols name symbol ≡ (some info, symbols)
  unfolding get_symbol
  symbol_known symbols info symbol known = rw (known, get_symbol) refl

  symbol_fetched :
      (symbols : SymbolRegistry) (symbol : Symbol)
      → get symbols name ≡ none
      → get_symbol symbols name (some symbol)
        ≡ (some (info_of_symbol symbol), set symbols name (info_of_symbol symbol))
  unfolding get_symbol
  symbol_fetched symbols symbol new = rw (new, get_symbol) refl

  -- A read of a cached symbol, and of one that the device describes.
  read_known :
      (symbols : SymbolRegistry) (info : SymbolInfo) (symbol : Option Symbol) (handle : Option ℕ)
      → get symbols name ≡ some info
      → read_of target sender symbols name symbol handle
        ≡ read_with target sender info (get_or_create_handle symbols name handle)
  unfolding read_of get_symbol read_found
  read_known symbols info symbol handle known =
      ap (read_found target sender name handle) (symbol_known symbols info symbol known)

  read_fetched :
      (symbols : SymbolRegistry) (symbol : Symbol) (handle : Option ℕ)
      → get symbols name ≡ none
      → read_of target sender symbols name (some symbol) handle
        ≡ read_of target sender (set symbols name (info_of_symbol symbol)) name (some symbol) handle
  unfolding read_of get_symbol read_found
  read_fetched symbols symbol handle new =
      ap (read_found target sender name handle) (symbol_fetched symbols symbol new)
      ∙ sym (
          read_known (set symbols name (info_of_symbol symbol)) (info_of_symbol symbol)
            (some symbol) handle (set_found symbols name (info_of_symbol symbol)))

  handle_known :
      (symbols : SymbolRegistry) (h : ℕ) (handle : Option ℕ)
      → cached_handle symbols name ≡ some h
      → get_or_create_handle symbols name handle ≡ (some h, symbols)
  unfolding get_or_create_handle
  handle_known symbols h handle known = rw (known, get_or_create_handle) refl

  handle_fetched :
      (symbols : SymbolRegistry) (h : ℕ)
      → cached_handle symbols name ≡ none
      → get_or_create_handle symbols name (some h) ≡ (some h, cache_handle symbols name h)
  unfolding get_or_create_handle
  handle_fetched symbols h new = rw (new, get_or_create_handle) refl

  -- A new handle changes nothing else of a symbol.
  found_after :
      (symbols : SymbolRegistry) (info : SymbolInfo) (h : ℕ)
      → get symbols name ≡ some info
      → get (cache_handle symbols name h) name ≡ some (record info { handle = h })
  unfolding cache_handle
  found_after symbols info h known =
      rw (known, cache_handle) (set_found symbols name (record info { handle = h }))

  found_new :
      (symbols : SymbolRegistry) (h : ℕ)
      → get symbols name ≡ none
      → get (cache_handle symbols name h) name ≡ some (bare_info name h)
  unfolding cache_handle
  found_new symbols h new = rw (new, cache_handle) (set_found symbols name (bare_info name h))

  -- A read of a symbol, with or without a cached handle, and the same read again.
  settled :
      (symbols : SymbolRegistry) (info : SymbolInfo) (h : ℕ) (symbol : Option Symbol)
      (handle : Option ℕ)
      → get symbols name ≡ some info
      → cached_handle symbols name ≡ some h
      → read_of target sender symbols name symbol handle
        ≡ (some (new_read_request target sender 0xF005 h info.size), symbols)
  unfolding read_with
  settled symbols info h symbol handle known cached =
      read_known symbols info symbol handle known
      ∙ ap (read_with target sender info) (handle_known symbols h handle cached)

  -- Where the device describes a symbol of which nothing is cached and gives it a handle that is not
  -- 0, `Read` asks for as many bytes as the symbol's size under that handle; every later `Read` makes
  -- the same request, whatever the device would answer, and leaves the registry as it is.
  pub read_of_again :
      (symbols : SymbolRegistry) (symbol : Symbol) (h : ℕ)
      → h ≢ 0
      → get symbols name ≡ none
      → let symbols' = (read_of target sender symbols name (some symbol) (some h)).1 in
        let request = new_read_request target sender 0xF005 h symbol.size in
        (read_of target sender symbols name (some symbol) (some h) ≡ (some request, symbols'))
        × ((later : Option Symbol) (handle : Option ℕ)
            → read_of target sender symbols' name later handle ≡ (some request, symbols'))
  unfolding read_with cached_handle
  read_of_again symbols symbol h given new =
      let info = info_of_symbol symbol in
      let known = set_found symbols name info in
      let s1 = set symbols name info in
      let s2 = cache_handle s1 name h in
      let no_handle : cached_handle s1 name ≡ none = rw (known, cached_handle) refl in
      let asked : read_of target sender symbols name (some symbol) (some h)
          ≡ (some (new_read_request target sender 0xF005 h symbol.size), s2) =
        read_fetched symbols symbol (some h) new
        ∙ read_known s1 info (some symbol) (some h) known
        ∙ ap (read_with target sender info) (handle_fetched s1 h no_handle) in
      rw asked (
        refl,
        λ later handle.
            settled s2 (record info { handle = h }) h later handle (found_after s1 info h known)
              (cached_after s1 name h given),
      )

  -- After a `Write` to a symbol of which nothing is cached, once it was given a handle that is not 0,
  -- every `Read` of it asks for 0 bytes, whatever the device says of the symbol.
  pub read_of-write_of :
      (symbols : SymbolRegistry) (payload : List ℕ) (h : ℕ) (symbol : Option Symbol)
      (handle : Option ℕ)
      → h ≢ 0
      → get symbols name ≡ none
      → let symbols' = (write_of target sender symbols name payload (some h)).1 in
        read_of target sender symbols' name symbol handle
        ≡ (some (new_read_request target sender 0xF005 h 0), symbols')
  unfolding write_of write_with cached_handle cache_handle
  read_of-write_of symbols payload h symbol handle given new =
      let no_handle : cached_handle symbols name ≡ none = rw (new, cached_handle) refl in
      rw (handle_fetched symbols h no_handle, write_with)
        (settled (cache_handle symbols name h) (bare_info name h) h symbol handle
          (found_new symbols h new) (cached_after symbols name h given))
