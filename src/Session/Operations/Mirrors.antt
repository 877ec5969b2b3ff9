-- ===== src/Session/Operations/Mirrors.antt =====
-- A session that has nothing cached of a variable does to the device what the client does.
use goads.Base.{
  ℕ, ◌≡◌, refl, sym, ap, ◌∙◌, Option, none, some, List, Option-cases, Bool-cases, inl, inr,
}
use mathlib.Core.Path.{subst}
use goads.Ams.Addr.{Addr}
use goads.Symbol.{Fields}
use goads.Symbol.Parse.{Symbol}
use goads.Link.{Link, Reply, ok, failed, crashed, Task, ◌>>=◌, pure, follow, or_fail}
use goads.Variable
use goads.Variable.{no_fields, update_field, read_variable, write_nested_field, load_fields}
use goads.Session.{SymbolInfo, SymbolRegistry, get, set}
use goads.Session.Access.{info_of_symbol, cached_handle, cache_handle}
use goads.Session.Access.Cache.{set_found}
use goads.Session.Operations.{
  Cached, fetch_symbol, session_symbol, shown, fetch_handle, session_handle, session_read,
  cache_fields, fetch_fields, session_fields, session_write_nested_field,
}

-- Two results with the same kind of reply and the same device, where a relation holds of the values
-- and the registry.
pub data Mirrors {D A B : Type 0} (R : A → B → SymbolRegistry → Type 0)
    : Reply A × D → Reply B × Cached D → Type 0 where
  both_ok :
      (a : A) (b : B) (s : SymbolRegistry) (d : D) → R a b s → Mirrors R (ok a, d) (ok b, (s, d))
  both_failed : (s : SymbolRegistry) (d : D) → Mirrors R (failed, d) (failed, (s, d))
  both_crashed : (s : SymbolRegistry) (d : D) → Mirrors R (crashed, d) (crashed, (s, d))

Mirrors-follow :
    {D A B A' B' : Type 0} {R : A → B → SymbolRegistry → Type 0}
    {Q : A' → B' → SymbolRegistry → Type 0} (x : Reply A × D) (y : Reply B × Cached D)
    (f : A → Task D A') (g : B → Task (Cached D) B')
    → Mirrors R x y
    → ((a : A) (b : B) (s : SymbolRegistry) (d : D) → R a b s → Mirrors Q (f a d) (g b (s, d)))
    → Mirrors Q (follow x f) (follow y g)
Mirrors-follow x y f g (both_ok a b s d r) rest = rest a b s d r
Mirrors-follow x y f g (both_failed s d) rest = both_failed s d
Mirrors-follow x y f g (both_crashed s d) rest = both_crashed s d

-- What only the session does behind it.
Mirrors-then :
    {D A B B' : Type 0} {R : A → B → SymbolRegistry → Type 0} {Q : A → B' → SymbolRegistry → Type 0}
    (x : Reply A × D) (y : Reply B × Cached D) (g : B → Task (Cached D) B')
    → Mirrors R x y
    → ((a : A) (b : B) (s : SymbolRegistry) (d : D) → R a b s → Mirrors Q (ok a, d) (g b (s, d)))
    → Mirrors Q x (follow y g)
Mirrors-then x y g (both_ok a b s d r) rest = rest a b s d r
Mirrors-then x y g (both_failed s d) rest = both_failed s d
Mirrors-then x y g (both_crashed s d) rest = both_crashed s d

-- The same value, and a registry of which a property holds.
abbrev Alike : {A : Type 0} → (A → SymbolRegistry → Type 0) → A → A → SymbolRegistry → Type 0
Alike P a b s = (b ≡ a) × P a s

-- An operation of the client is mirrored by itself.
Mirrors-on_device :
    {D A : Type 0} (P : SymbolRegistry → Type 0) (s : SymbolRegistry) (x : Reply A × D)
    → P s
    → Mirrors (Alike (λ a. P)) x (x.0, (s, x.1))
Mirrors-on_device P s (ok a, d) p = both_ok a a s d (refl, p)
Mirrors-on_device P s (failed, d) p = both_failed s d
Mirrors-on_device P s (crashed, d) p = both_crashed s d

-- A result of the session, its registry left out.
abbrev pub without_registry : {D A : Type 0} → Reply A × Cached D → Reply A × D
without_registry (reply, (symbols, d)) = (reply, d)

-- A result of a read, its information left out.
abbrev pub without_info : {D I : Type 0} → Reply (List ℕ × I) × D → Reply (List ℕ) × D
without_info (ok (bytes, info), d) = (ok bytes, d)
without_info (failed, d) = (failed, d)
without_info (crashed, d) = (crashed, d)

without_info-follow :
    {D A I J : Type 0} (x : Reply A × D) (f : A → Task D (List ℕ × I)) (g : A → Task D (List ℕ × J))
    → ((a : A) (d : D) → without_info (f a d) ≡ without_info (g a d))
    → without_info (follow x f) ≡ without_info (follow x g)
without_info-follow (ok a, d) f g same = same a d
without_info-follow (failed, d) f g same = refl
without_info-follow (crashed, d) f g same = refl

Mirrors-read_same :
    {D A : Type 0} {P : A → SymbolRegistry → Type 0} (x : Reply A × D) (y : Reply A × Cached D)
    → Mirrors (Alike P) x y
    → without_registry y ≡ x
Mirrors-read_same x y (both_ok a b s d (same, _)) = ap (λ r. (ok r, d)) same
Mirrors-read_same x y (both_failed s d) = refl
Mirrors-read_same x y (both_crashed s d) = refl

-- What two results have in common.
Mirrors-same :
    {D : Type 0} {R : Unit {0} → Unit {0} → SymbolRegistry → Type 0} (x : Reply Unit × D)
    (y : Reply Unit × Cached D)
    → Mirrors R x y
    → without_registry y ≡ x
Mirrors-same x y (both_ok a b s d r) = refl
Mirrors-same x y (both_failed s d) = refl
Mirrors-same x y (both_crashed s d) = refl

module _ {D : Type 0} (link : Link D) (target sender : Addr) (name : List ℕ) where
  -- What the registry holds of the variable once its symbol is fetched.
  abbrev Holds : SymbolInfo → SymbolRegistry → Type 0
  Holds info s = get s name ≡ some info

  Mirrors-symbol :
      (s : SymbolRegistry) (d : D)
      → get s name ≡ none
      → Mirrors
          (λ symbol info s'. (info ≡ info_of_symbol symbol) × Holds (info_of_symbol symbol) s')
          (Variable.get_symbol link target sender name d)
          (session_symbol link target sender name (s, d))
  unfolding session_symbol fetch_symbol
  Mirrors-symbol s d new =
      rw (new, session_symbol)
        (Mirrors-then _ _ _
          (Mirrors-on_device (λ s'. s' ≡ s) s (Variable.get_symbol link target sender name d) refl)
          λ a b s' d' (same, _). both_ok a (info_of_symbol b) (set s' name (info_of_symbol b)) d' (
            ap info_of_symbol same,
            set_found s' name (info_of_symbol b) ∙ ap (λ symbol. some (info_of_symbol symbol)) same,
          ))

  handle_cached :
      (info : SymbolInfo) (s : SymbolRegistry) (h b : ℕ)
      → b ≡ h
      → Holds info s
      → Holds (record info { handle = h }) (cache_handle s name b)
  unfolding cache_handle
  handle_cached info s h b same there =
      rw (there, cache_handle)
        (set_found s name (record info { handle = b })
          ∙ ap (λ k. some (record info { handle = k })) same)

  Mirrors-handle :
      (info : SymbolInfo) (s : SymbolRegistry) (d : D)
      → Holds info s
      → info.handle ≡ 0
      → Mirrors
          (Alike (λ h s'. Holds (record info { handle = h }) s'))
          (Variable.get_sym_handle_by_name link target sender name d)
          (session_handle link target sender name (s, d))
  unfolding session_handle fetch_handle cached_handle
  Mirrors-handle info s d known bare =
      let none_cached : cached_handle s name ≡ none = rw (known, cached_handle) (rw bare refl) in
      rw (none_cached, session_handle)
        (Mirrors-then _ _ _
          (Mirrors-on_device (Holds info) s
            (Variable.get_sym_handle_by_name link target sender name d) known)
          λ a b s' d' (same, there).
            both_ok a b (cache_handle s' name b) d' (same, handle_cached info s' a b same there))

  Mirrors-cache_fields :
      (info : SymbolInfo) (fields : Fields) (s : SymbolRegistry) (d : D)
      → (s' : SymbolRegistry) × (cache_fields link target sender name info fields (s, d)
          ≡ (ok tt, (s', d)))
  unfolding cache_fields
  Mirrors-cache_fields info fields s d = elim (Option-cases (get s name)) [
    | inl new ↦ (set s name (record info { fields = fields }), rw (new, cache_fields) refl)
    | inr (current, known) ↦
        (set s name (record current { fields = fields }), rw (known, cache_fields) refl)
  ]

  Mirrors-fields :
      (symbol : Symbol) (s : SymbolRegistry) (d : D)
      → Mirrors
          (Alike (λ fields s'. Unit {0}))
          (load_fields link target sender symbol d)
          (session_fields link target sender name (info_of_symbol symbol) (s, d))
  unfolding load_fields session_fields fetch_fields
  Mirrors-fields symbol s d = elim (Bool-cases (no_fields symbol.fields)) [
    | inr there ↦ rw there (both_ok symbol.fields symbol.fields s d (refl, tt))
    | inl bare ↦ rw bare (
        Mirrors-then _ _ _
          (Mirrors-on_device (λ s'. Unit {0}) s
            (Variable.get_data_type_info link target sender symbol.data_type d) tt)
          λ a b s' d' (same, _).
            let (s2, cached) = Mirrors-cache_fields (info_of_symbol symbol) b s' d' in
            rw cached (both_ok a b s2 d' (same, tt)))
  ]

  Mirrors-or_fail :
      {A : Type 0} (o : Option A) (s : SymbolRegistry) (d : D)
      → Mirrors (Alike (λ (a : A) s'. Unit {0})) (or_fail o d) (or_fail o (s, d))
  Mirrors-or_fail (some a) s d = both_ok a a s d (refl, tt)
  Mirrors-or_fail none s d = both_failed s d

  -- What follows a value of the session's that is made of the client's.
  Mirrors-bind :
      {A B A' B' : Type 0} (made : A → B) {P : A → SymbolRegistry → Type 0}
      {Q : A' → B' → SymbolRegistry → Type 0} (x : Reply A × D) (y : Reply B × Cached D)
      (f : A → Task D A') (g : B → Task (Cached D) B')
      → Mirrors (λ a b s. (b ≡ made a) × P a s) x y
      → ((a : A) (s : SymbolRegistry) (d : D) → P a s → Mirrors Q (f a d) (g (made a) (s, d)))
      → Mirrors Q (follow x f) (follow y g)
  Mirrors-bind made {Q = Q} x y f g m rest =
      Mirrors-follow x y f g m
        λ a b s d (same, p). subst (λ c. Mirrors Q (f a d) (g c (s, d))) (sym same) (rest a s d p)

  Mirrors-write_nested_field :
      (path : List (List ℕ)) (payload : List ℕ) (s : SymbolRegistry) (d : D)
      → get s name ≡ none
      → Mirrors
          (Alike (λ (u : Unit {0}) s'. Unit {0}))
          (write_nested_field link target sender name path payload d)
          (session_write_nested_field link target sender name path payload (s, d))
  unfolding write_nested_field session_write_nested_field
  Mirrors-write_nested_field path payload s d new =
      Mirrors-bind info_of_symbol _ _ _ _ (Mirrors-symbol s d new) λ symbol s1 d1 known.
        Mirrors-bind (λ h. h) _ _ _ _ (Mirrors-handle (info_of_symbol symbol) s1 d1 known refl)
          λ h s2 d2 _.
            Mirrors-bind (λ b. b) _ _ _ _
              (Mirrors-on_device (λ s'. Unit {0}) s2
                (Variable.read_value link target sender h symbol.size d2) tt)
              λ bytes s3 d3 _.
                Mirrors-bind (λ fs. fs) _ _ _ _ (Mirrors-fields symbol s3 d3)
                  λ fields s4 d4 _.
                    Mirrors-bind (λ n. n) _ _ _ _
                      (Mirrors-or_fail (update_field fields path payload bytes) s4 d4)
                      λ updated s5 d5 _.
                        Mirrors-on_device (λ s'. Unit {0}) s5
                          (Variable.write_value link target sender h updated d5) tt

  -- The client's calls of a read that asks for the handle behind the symbol, with the information of the
  -- symbol, in which the handle is set.
  unfoldable pub read_with_handle : Task D (List ℕ × SymbolInfo)
  unfolding Variable.get_symbol Variable.get_sym_handle_by_name Variable.read_value
  read_with_handle = do
    symbol ← Variable.get_symbol link target sender name
    handle ← Variable.get_sym_handle_by_name link target sender name
    bytes ← Variable.read_value link target sender handle symbol.size
    pure (bytes, record (info_of_symbol symbol) { handle = handle })

  same_bytes_read :
      (d : D)
      → without_info (read_with_handle d) ≡ without_info (read_variable link target sender name d)
  unfolding read_with_handle read_variable
  same_bytes_read d =
      without_info-follow (Variable.get_symbol link target sender name d) _ _ λ symbol d1.
        without_info-follow (Variable.get_sym_handle_by_name link target sender name d1) _ _ λ h d2.
          without_info-follow (Variable.read_value link target sender h symbol.size d2) _ _
            λ bytes d3. refl

  Mirrors-read :
      (s : SymbolRegistry) (d : D)
      → get s name ≡ none
      → Mirrors
          (Alike (λ r s'. Unit {0}))
          (read_with_handle d)
          (session_read link target sender name (s, d))
  unfolding read_with_handle session_read
  Mirrors-read s d new =
      Mirrors-bind info_of_symbol _ _ _ _ (Mirrors-symbol s d new) λ symbol s1 d1 known.
        Mirrors-bind (λ h. h) _ _ _ _ (Mirrors-handle (info_of_symbol symbol) s1 d1 known refl)
          λ h s2 d2 cached.
            Mirrors-bind (λ b. b) _ _ _ _
              (Mirrors-on_device (Holds (record (info_of_symbol symbol) { handle = h })) s2
                (Variable.read_value link target sender h symbol.size d2) cached)
              λ bytes s3 d3 there.
                both_ok _ _ s3 d3 (ap (λ o. (bytes, shown (info_of_symbol symbol) o)) there, tt)

  -- With any device, and nothing cached of the variable, a session's `WriteNestedField` returns what
  -- the client's returns and leaves the device as the client's does. A session's `Read` returns the bytes
  -- that the client's `ReadVariable` returns, or fails with it, and leaves the device as that does; its
  -- information is that of the symbol that the device gave, in which the handle is set that the device
  -- gave next and under which the bytes were read.
  pub session_mirrors_client :
      (path : List (List ℕ)) (payload : List ℕ) (s : SymbolRegistry) (d : D)
      → get s name ≡ none
      → (without_registry (session_write_nested_field link target sender name path payload (s, d))
          ≡ write_nested_field link target sender name path payload d)
        × (without_registry (session_read link target sender name (s, d)) ≡ read_with_handle d)
        × (without_info (without_registry (session_read link target sender name (s, d)))
            ≡ without_info (read_variable link target sender name d))
  session_mirrors_client path payload s d new =
      let read_same = Mirrors-read_same _ _ (Mirrors-read s d new) in
      (
        Mirrors-same _ _ (Mirrors-write_nested_field path payload s d new),
        read_same,
        ap without_info read_same ∙ same_bytes_read d,
      )
