-- ===== src/Cache.antt =====
-- app/core/cache.py: the in-memory backend, and the decorator that caches a function. Times are ticks of
-- one clock; pickling is left out, and the Redis backend is the server's own. The lock makes each operation
-- one step.
pub mod View
pub mod Staleness
mod Tests
use text.Mathlib.Text.{◌==◌ as str_eq}
use sardoba_app_server.Prelude.{
  ℕ, ◌+◌, String, Bool, true, false, Option, none, some, List, [], ◌∷◌, ltb, if◌then◌else◌,
}
use sardoba_app_server.Prelude.Dict.{Dict, lookup, insert}
use sardoba_app_server.Text.{join, has_prefix}

module _ {ℓ} {V : Type ℓ} where
  -- `d.pop(key, None)`: the keys of a dict differ, so that at most one entry goes.
  unfoldable pub pop : String → Dict V → Dict V
  pop key [] = []
  pop key ((k, v) ∷ d) = let rest = pop key d in if str_eq k key then rest else (k, v) ∷ rest

  -- The entries whose keys do not start with the prefix.
  unfoldable pub drop_prefix : String → Dict V → Dict V
  drop_prefix prefix [] = []
  drop_prefix prefix ((k, v) ∷ d) =
      let rest = drop_prefix prefix d in if has_prefix prefix k then rest else (k, v) ∷ rest

unfoldable pub build_cache_key : String → String → String
build_cache_key namespace identifier = join namespace (join ":" identifier)

pub record InMemoryEntry {ℓ} (V : Type ℓ) : Type ℓ where
  pub value : V
  pub expires_at : ℕ

module _ {ℓ} {V : Type ℓ} where
  -- An entry that has run out is removed.
  unfoldable pub get : ℕ → String → Dict (InMemoryEntry V) → Option V × Dict (InMemoryEntry V)
  unfolding lookup pop
  get now key d = elim (lookup key d) [
    | none ↦ (none, d)
    | some e ↦ if ltb e.expires_at now then (none, pop key d) else (some e.value, d)
  ]

  unfoldable pub set : ℕ → String → V → ℕ → Dict (InMemoryEntry V) → Dict (InMemoryEntry V)
  unfolding insert
  set now key value ttl d = insert key (record { value = value; expires_at = now + ttl }) d

  unfoldable pub delete : String → Dict (InMemoryEntry V) → Dict (InMemoryEntry V)
  unfolding pop
  delete key d = pop key d

  unfoldable pub clear_namespace : String → Dict (InMemoryEntry V) → Dict (InMemoryEntry V)
  unfolding drop_prefix
  clear_namespace namespace d = drop_prefix (join namespace ":") d

  -- `fetch` is what the function would return now.
  unfoldable pub cached :
      ℕ → String → ℕ → String → V → Dict (InMemoryEntry V) → V × Dict (InMemoryEntry V)
  unfolding build_cache_key get set
  cached ttl namespace now identifier fetch d =
      let key = build_cache_key namespace identifier in
      let (found, d') = get now key d in
      elim found [ none ↦ (fetch, set now key fetch ttl d') | some v ↦ (v, d') ]
