-- ===== src/Cache/View.antt =====
-- What the cache of app/core/cache.py promises: a map from keys to values that forget themselves.
use text.Mathlib.Text.{◌==◌ as str_eq}
use text.Mathlib.TextEquality.{eq_iff}
use sardoba_app_server.Prelude.{
  ℕ, ◌+◌, ◌≤◌, ◌≡◌, refl, sym, String, true, Option, none, some, [], ◌∷◌, ltb, leb, if◌then◌else◌,
  arith, inl, inr, Bool-cases, Option-cases, ap,
}
use sardoba_app_server.Prelude.Dict.{Dict, lookup, lookup-insert}
use sardoba_app_server.Text.{join, has_prefix}
use sardoba_app_server.Cache.{InMemoryEntry, pop, drop_prefix, get, set, delete, clear_namespace}

module _ {ℓ} {V : Type ℓ} where
  lookup-pop :
      (key k : String) (d : Dict V)
      → lookup k (pop key d) ≡ (if str_eq key k then none else lookup k d)
  unfolding lookup pop
  lookup-pop key k [] = ground arith
  lookup-pop key k ((j, v) ∷ d) =
      ground (arith, eq_iff key k, eq_iff j key, eq_iff j k, lookup-pop key k d)

  pub lookup-drop_prefix :
      (prefix k : String) (d : Dict V)
      → lookup k (drop_prefix prefix d) ≡ (if has_prefix prefix k then none else lookup k d)
  unfolding lookup drop_prefix
  lookup-drop_prefix prefix k [] = ground arith
  lookup-drop_prefix prefix k ((j, v) ∷ d) = elim (Bool-cases (str_eq j k)) [
    | inl e ↦
        let same = ap (has_prefix prefix) ((eq_iff j k).0 e) in
        ground (arith, same, lookup-drop_prefix prefix k d)
    | inr e ↦ ground (arith, lookup-drop_prefix prefix k d)
  ]

module _ {ℓ} {V : Type ℓ} where
  abbrev live : ℕ → Option (InMemoryEntry V) → Option V
  live now none = none
  live now (some e) = if ltb e.expires_at now then none else some e.value

  -- What a reader would see of a key at a time.
  abbrev pub view : ℕ → String → Dict (InMemoryEntry V) → Option V
  view now key d = live now (lookup key d)

  set-view :
      (now ttl later : ℕ) (key k : String) (v : V) (d : Dict (InMemoryEntry V))
      → view later k (set now key v ttl d) ≡ (
          if str_eq key k then (if leb later (now + ttl) then some v else none) else view later k d)
  unfolding set
  set-view now ttl later key k v d =
      rw (lookup-insert key k (record { value = v; expires_at = now + ttl }) d) (ground arith)

  delete-view :
      (later : ℕ) (key k : String) (d : Dict (InMemoryEntry V))
      → view later k (delete key d) ≡ (if str_eq key k then none else view later k d)
  unfolding delete
  delete-view later key k d = rw (lookup-pop key k d) (ground arith)

  clear-view :
      (later : ℕ) (namespace k : String) (d : Dict (InMemoryEntry V))
      → view later k (clear_namespace namespace d)
        ≡ (if has_prefix (join namespace ":") k then none else view later k d)
  unfolding clear_namespace
  clear-view later namespace k d = rw (lookup-drop_prefix (join namespace ":") k d) (ground arith)

  get-answer :
      (now : ℕ) (key : String) (d : Dict (InMemoryEntry V)) → (get now key d).0 ≡ view now key d
  unfolding get
  get-answer now key d = ground arith

  expired_hidden :
      (now later : ℕ) (key k : String) (e : InMemoryEntry V) (d : Dict (InMemoryEntry V))
      → now ≤ later
      → lookup key d ≡ some e
      → ltb e.expires_at now ≡ true
      → view later k (pop key d) ≡ view later k d
  expired_hidden now later key k e d h l x = elim (Bool-cases (str_eq key k)) [
    | inl b ↦
        let same : lookup key d ≡ lookup k d = ap (λ z. lookup z d) ((eq_iff key k).0 b) in
        rw (lookup-pop key k d, b, sym same, l) (ground arith)
    | inr b ↦ rw (lookup-pop key k d, b) refl
  ]

  get-view :
      (now later : ℕ) (key k : String) (d : Dict (InMemoryEntry V))
      → now ≤ later
      → view later k (get now key d).1 ≡ view later k d
  unfolding get
  get-view now later key k d h = elim (Option-cases (lookup key d)) [
    | inl e ↦ rw (e, get) refl
    | inr (x, e) ↦ elim (Bool-cases (ltb x.expires_at now)) [
      | inl b ↦ rw (e, get, b) (expired_hidden now later key k x d h e b)
      | inr b ↦ rw (e, get, b) refl
    ]
  ]

-- The promise of a cache, as the operations on what readers see, at any later time.
pub record IsCache {ℓ} {V : Type ℓ} (now : ℕ) (d : Dict (InMemoryEntry V)) : Type ℓ where
  pub get_answers : (key : String) → (get now key d).0 ≡ view now key d
  pub get_keeps :
      (later : ℕ) (key k : String) → now ≤ later → view later k (get now key d).1 ≡ view later k d
  pub set_adds :
      (later ttl : ℕ) (key k : String) (v : V)
      → view later k (set now key v ttl d) ≡ (
          if str_eq key k then (if leb later (now + ttl) then some v else none) else view later k d)
  pub delete_removes :
      (later : ℕ) (key k : String)
      → view later k (delete key d) ≡ (if str_eq key k then none else view later k d)
  pub clear_removes :
      (later : ℕ) (namespace k : String)
      → view later k (clear_namespace namespace d)
        ≡ (if has_prefix (join namespace ":") k then none else view later k d)

-- The in-memory cache is a map from keys to values with a deadline: a read answers what is there and changes
-- nothing that a later read sees, a write shows until its time to live is over, a deletion hides one key
-- and the clearing of a namespace just the keys that start with its name and a colon.
pub memory-IsCache {ℓ} : {V : Type ℓ} (now : ℕ) (d : Dict (InMemoryEntry V)) → IsCache now d
memory-IsCache now d = record {
  get_answers = λ key. get-answer now key d;
  get_keeps = λ later key k h. get-view now later key k d h;
  set_adds = λ later ttl key k v. set-view now ttl later key k v d;
  delete_removes = λ later key k. delete-view later key k d;
  clear_removes = λ later namespace k. clear-view later namespace k d;
}
