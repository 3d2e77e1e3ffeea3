-- ===== src/Locks.antt =====
-- The distributed lock: app/core/locking.py. Redis is a record of operations on a state of any type, with
-- what its documentation promises as a record of laws; the clock's readings and what other processes do
-- between them are arguments. Times count microseconds.
pub mod Exclusion
mod Tests
use text.Mathlib.Text.{◌==◌ as str_eq}
use sardoba_app_server.Prelude.{
  ℕ, ◌+◌, ◌≤◌, ◌<◌, ◌≡◌, String, Bool, true, false, Option, none, some, List, [], ◌∷◌, ltb,
  if◌then◌else◌, is_some,
}
use sardoba_app_server.SyncJobs.{holds_text}

-- `SET name token NX EX ttl`, `GET name` and `DEL name` at a time.
pub record RedisClient (R : Type 0) : Type 0 where
  pub set_nx_ex : String → String → ℕ → ℕ → R → Bool × R
  pub get : String → ℕ → R → Option String
  pub del : String → ℕ → R → R

pub record RedisLaws {R : Type 0} (c : RedisClient R) : Type 0 where
  -- The key is free: it is set, and stays until its time to live is over.
  pub set_granted :
      (name token : String) (ttl now t : ℕ) (r : R)
      → c.get name now r ≡ none
      → now ≤ t
      → t < now + ttl
      → c.get name t (c.set_nx_ex name token ttl now r).1 ≡ some token
  pub set_answer :
      (name token : String) (ttl now : ℕ) (r : R)
      → (c.set_nx_ex name token ttl now r).0 ≡ (if is_some (c.get name now r) then false else true)
  -- The key is there: nothing changes.
  pub set_refused :
      (name token other v : String) (ttl now t : ℕ) (r : R)
      → c.get name now r ≡ some v
      → c.get other t (c.set_nx_ex name token ttl now r).1 ≡ c.get other t r
  -- Other keys are left alone.
  pub set_other :
      (name token other : String) (ttl now t : ℕ) (r : R)
      → str_eq name other ≡ false
      → c.get other t (c.set_nx_ex name token ttl now r).1 ≡ c.get other t r
  pub del_other :
      (name other : String) (now t : ℕ) (r : R)
      → str_eq name other ≡ false
      → c.get other t (c.del name now r) ≡ c.get other t r

-- A lock object that has drawn its owner token.
pub record DistributedLock : Type 0 where
  pub name : String
  pub owner_token : String
  pub ttl : ℕ

-- What a process does with a lock of its own.
pub data Event : Type 0 where
  try_set : ℕ → DistributedLock → Event
  free : ℕ → DistributedLock → Event

-- A turn of the waiting loop: what happened before it, and the reading of the clock.
pub record Poll : Type 0 where
  pub before : List Event
  pub now : ℕ

module _ {R : Type 0} (c : RedisClient R) where
  -- The script of `release`, which Redis runs as one step.
  unfoldable pub release : DistributedLock → ℕ → R → R
  release l now r = if holds_text (c.get l.name now r) l.owner_token then c.del l.name now r else r

  unfoldable pub happen : Event → R → R
  unfolding release
  happen (try_set now l) r = (c.set_nx_ex l.name l.owner_token l.ttl now r).1
  happen (free now l) r = release l now r

  unfoldable pub happen_all : List Event → R → R
  unfolding happen
  happen_all [] r = r
  happen_all (e ∷ es) r = happen_all es (happen e r)

  -- `acquire` up to its deadline: the time at which the lock was got. The loop ends when the clock
  -- passes the deadline, or with the list of its turns.
  unfoldable pub acquire_at : DistributedLock → ℕ → List Poll → R → Option ℕ × R
  unfolding happen_all
  acquire_at l deadline [] r = (none, r)
  acquire_at l deadline (p ∷ ps) r =
      let r₁ = happen_all p.before r in
      let (got, r₂) = c.set_nx_ex l.name l.owner_token l.ttl p.now r₁ in
      let rest = acquire_at l deadline ps r₂ in
      if ltb p.now deadline then (if got then (some p.now, r₂) else rest) else (none, r₁)

  unfoldable pub acquire : DistributedLock → ℕ → List Poll → R → Bool × R
  unfolding acquire_at
  acquire l deadline polls r = let (at, r') = acquire_at l deadline polls r in (is_some at, r')

  -- `with lock.hold() as acquired`: released at the end if it was got, also where the body raises, which
  -- is a result here. `later` reads the clock then.
  unfoldable pub hold :
      {A : Type 0} → DistributedLock → ℕ → List Poll → ℕ → (Bool → R → A × R) → R → A × R
  unfolding acquire release
  hold l deadline polls later body r =
      let (acquired, r₁) = acquire l deadline polls r in
      let (a, r₂) = body acquired r₁ in (a, if acquired then release l later r₂ else r₂)
