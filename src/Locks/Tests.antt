-- ===== src/Locks/Tests.antt =====
-- Locks on a plain Redis: each key has a value and the time at which it is gone.
use text.Mathlib.Text.{◌==◌ as str_eq}
use text.Mathlib.TextPositions.{eq_refl}
use sardoba_app_server.Prelude.{
  ℕ, ◌≡◌, refl, String, true, false, Option, none, some, [], ◌∷◌, ◌+◌, ltb, arith, if◌then◌else◌,
  is_some,
}
use sardoba_app_server.Locks.{
  RedisClient, RedisLaws, DistributedLock, try_set, free, happen_all, acquire, acquire_at,
}
use sardoba_app_server.Locks.Exclusion.{acquire_exclusive}

abbrev Keys : Type 0
Keys = String → Option (String × ℕ)

abbrev live : ℕ → Option (String × ℕ) → Option String
live now none = none
live now (some (v, expiry)) = if ltb now expiry then some v else none

abbrev put : String → Option (String × ℕ) → Keys → Keys
put name entry r = λ k. if str_eq name k then entry else r k

abbrev plain_redis : RedisClient Keys
plain_redis = record {
  set_nx_ex = λ name token ttl now r.
      if is_some (live now (r name))
      then (false, r)
      else (true, put name (some (token, now + ttl)) r);
  get = λ name now r. live now (r name);
  del = λ name now r. put name none r;
}

plain_redis-RedisLaws : RedisLaws plain_redis
plain_redis-RedisLaws = record {
  set_granted =
      λ name token ttl now t r vacant from before. rw (vacant, eq_refl name) (ground arith);
  set_answer = λ name token ttl now r. ground arith;
  set_refused = λ name token other v ttl now t r taken. rw taken refl;
  set_other = λ name token other ttl now t r apart. ground (arith, apart);
  del_other = λ name other now t r apart. rw apart refl;
}

abbrev lock_of : String → DistributedLock
lock_of token = record { name = "iiko:user:7"; owner_token = token; ttl = 10_000_000 }

-- The first process polls at the time 100. A second one tries once and releases; a third one polls twice.
acquire_exclusive_example :
    let r₁ =
      happen_all plain_redis
        (try_set 200 (lock_of "b") ∷ free 300 (lock_of "b") ∷ [])
        (acquire_at plain_redis
          (lock_of "a")
          5_000_000
          (record { before = []; now = 100 } ∷ [])
          (λ _. none)).1 in
    let (acquired, r₂) =
      acquire plain_redis
        (lock_of "c")
        5_000_400
        (record { before = []; now = 400 } ∷ record { before = []; now = 200_400 } ∷ [])
        r₁ in
    (acquired ≡ false) × (plain_redis.get "iiko:user:7" 9_000_000 r₂ ≡ some "a")
unfolding acquire_at happen_all
acquire_exclusive_example =
    acquire_exclusive plain_redis plain_redis-RedisLaws (lock_of "a") (lock_of "c") 5_000_000
      5_000_400 100 9_000_000 (record { before = []; now = 100 } ∷ [])
      (record { before = []; now = 400 } ∷ record { before = []; now = 200_400 } ∷ [])
      (try_set 200 (lock_of "b") ∷ free 300 (lock_of "b") ∷ []) (λ _. none) refl refl
      ((omega arith, omega arith), ((omega arith, omega arith, refl), tt))
      ((omega arith, omega arith, tt), ((omega arith, omega arith, tt), tt)) (omega arith)
      (omega arith)
