-- ===== src/Cache/Staleness.antt =====
-- How old an answer of the caching decorator of app/core/cache.py can be.
use text.Mathlib.TextPositions.{eq_refl}
use sardoba_app_server.Prelude.{
  leb→le, sym, ◌∙◌, ℕ, ◌+◌, ◌≤◌, ◌≡◌, refl, String, Option, none, some, leb, arith, inl, inr,
  Bool-cases,
}
use sardoba_app_server.Prelude.Dict.{Dict}
use sardoba_app_server.Cache.{InMemoryEntry, get, set, cached, build_cache_key}
use sardoba_app_server.Cache.View.{view, memory-IsCache, IsCache}

-- `fetch t` is what the function would return at time t for the identifier.
module _ {ℓ} {V : Type ℓ} (fetch : ℕ → V) (ttl : ℕ) (namespace identifier : String) where
  -- A value was what the function returned at some time, not longer ago than the time to live.
  abbrev pub Recent : ℕ → V → Type ℓ
  Recent now v = (t : ℕ) × (t ≤ now) × (now ≤ t + ttl) × (v ≡ fetch t)

  -- Whatever a reader sees under the key, now or later, is recent.
  pub record IsRecent (now : ℕ) (d : Dict (InMemoryEntry V)) : Type ℓ where
    pub seen :
        (later : ℕ) (v : V)
        → now ≤ later
        → view later (build_cache_key namespace identifier) d ≡ some v
        → Recent later v

  fresh_write :
      (now : ℕ) (d : Dict (InMemoryEntry V))
      → IsRecent now (set now (build_cache_key namespace identifier) (fetch now) ttl d)
  fresh_write now d = record {
    seen = λ later v h e.
        let key = build_cache_key namespace identifier in
        let laws : IsCache now d = memory-IsCache now d in
        let e' = rw (laws.set_adds later ttl key key (fetch now), eq_refl key) at e in
        elim (Bool-cases (leb later (now + ttl))) [
          | inl b ↦
              let same : some (fetch now) ≡ some v = rw b at e' in
              (now, h, leb→le later (now + ttl) b, cc)
          | inr b ↦ cc (rw b at e')
        ];
  }

  answered :
      (now : ℕ) (d : Dict (InMemoryEntry V)) (out : Option V × Dict (InMemoryEntry V))
      → IsRecent now d
      → out.0 ≡ view now (build_cache_key namespace identifier) d
      → ((later : ℕ)
          → now ≤ later
          → view later (build_cache_key namespace identifier) out.1
            ≡ view later (build_cache_key namespace identifier) d)
      → let key = build_cache_key namespace identifier in
        let (v, d') = elim out.0 as (λ _. V × Dict (InMemoryEntry V)) [
          | none ↦ (fetch now, set now key (fetch now) ttl out.1)
          | some v ↦ (v, out.1)
        ] in
        Recent now v × IsRecent now d'
  answered now d (none, d') h e keep = ((now, omega arith, omega arith, refl), fresh_write now d')
  answered now d (some v, d') h e keep = (
    h.seen now v (omega arith) (sym e),
    record { seen = λ later w le s. h.seen later w le (sym (keep later le) ∙ s) },
  )

  -- Where whatever the cache shows for a call is recent, the call answers what the function returned not
  -- longer ago than the time to live, now if it is not cached, and leaves the cache so.
  pub cached-Recent :
      (now : ℕ) (d : Dict (InMemoryEntry V))
      → IsRecent now d
      → let (v, d') = cached ttl namespace now identifier (fetch now) d in
        Recent now v × IsRecent now d'
  unfolding cached
  cached-Recent now d h =
      let key = build_cache_key namespace identifier in
      let laws : IsCache now d = memory-IsCache now d in
      answered now d (get now key d) h (laws.get_answers key)
        (λ later le. laws.get_keeps later key key le)
