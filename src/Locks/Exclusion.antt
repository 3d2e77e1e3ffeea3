-- ===== src/Locks/Exclusion.antt =====
-- Who has got the lock of app/core/locking.py keeps it for its time to live.
use text.Mathlib.Text.{◌==◌ as str_eq}
use text.Mathlib.TextEquality.{eq_iff}
use sardoba_app_server.Prelude.{
  ℕ, ◌+◌, ◌≤◌, ◌<◌, ◌≡◌, refl, true, false, none, some, List, [], ◌∷◌, ltb, is_some, arith, inl,
  inr, Bool-cases, Option-cases, All, ◌∙◌, ap,
}
use sardoba_app_server.SyncJobs.{holds_text}
use sardoba_app_server.Locks.{
  RedisClient, RedisLaws, DistributedLock, Event, try_set, free, Poll, release, happen_all,
  acquire_at, acquire,
}

-- The event is another process's, and falls into the time from `since` to `until`.
abbrev pub IsForeign : DistributedLock → ℕ → ℕ → Event → Type 0
IsForeign l since until (try_set now m) = (since ≤ now) × (now < until)
IsForeign l since until (free now m) =
    (since ≤ now) × (now < until) × (str_eq l.owner_token m.owner_token ≡ false)

-- A turn of another process in that time, and what comes before it.
abbrev pub IsForeignPoll : DistributedLock → ℕ → ℕ → Poll → Type 0
IsForeignPoll l since until p =
    (since ≤ p.now) × (p.now < until) × All (IsForeign l since until) p.before

module _ {R : Type 0} (c : RedisClient R) (laws : RedisLaws c) where
  -- The key has the token in all that time.
  abbrev pub IsHeld : DistributedLock → ℕ → ℕ → R → Type 0
  IsHeld l since until r = (t : ℕ) → since ≤ t → t < until → c.get l.name t r ≡ some l.owner_token

  set-IsHeld :
      (l m : DistributedLock) (since until now : ℕ) (r : R)
      → since ≤ now
      → now < until
      → IsHeld l since until r
      → IsHeld l since until (c.set_nx_ex m.name m.owner_token m.ttl now r).1
  set-IsHeld l m since until now r a b h t p q = elim (Bool-cases (str_eq m.name l.name)) [
    | inl same ↦
        let name : m.name ≡ l.name = (eq_iff m.name l.name).0 same in
        laws.set_refused m.name m.owner_token l.name l.owner_token m.ttl now t r
          (rw name (h now a b))
        ∙ h t p q
    | inr other ↦ laws.set_other m.name m.owner_token l.name m.ttl now t r other ∙ h t p q
  ]

  release-IsHeld :
      (l m : DistributedLock) (since until now : ℕ) (r : R)
      → since ≤ now
      → now < until
      → str_eq l.owner_token m.owner_token ≡ false
      → IsHeld l since until r
      → IsHeld l since until (release c m now r)
  unfolding release
  release-IsHeld l m since until now r a b apart h t p q =
      elim (Bool-cases (str_eq m.name l.name)) [
        | inl same ↦
            let name : m.name ≡ l.name = (eq_iff m.name l.name).0 same in
            let owned : c.get m.name now r ≡ some l.owner_token = rw name (h now a b) in
            rw (owned, apart) (h t p q)
        | inr other ↦ elim (Bool-cases (holds_text (c.get m.name now r) m.owner_token)) [
          | inl own ↦ rw own (laws.del_other m.name l.name now t r other ∙ h t p q)
          | inr not_own ↦ rw not_own (h t p q)
        ]
      ]

  happen_all-IsHeld :
      (l : DistributedLock) (since until : ℕ) (es : List Event) (r : R)
      → All (IsForeign l since until) es
      → IsHeld l since until r
      → IsHeld l since until (happen_all c es r)
  unfolding happen_all
  happen_all-IsHeld l since until [] r f h = h
  happen_all-IsHeld l since until (try_set now m ∷ es) r (f, fs) h =
      happen_all-IsHeld l since until es _ fs (set-IsHeld l m since until now r f.0 f.1 h)
  happen_all-IsHeld l since until (free now m ∷ es) r (f, fs) h =
      happen_all-IsHeld l since until es _ fs (release-IsHeld l m since until now r f.0 f.1 f.2 h)

  granted-free :
      (l : DistributedLock) (now : ℕ) (r : R)
      → (c.set_nx_ex l.name l.owner_token l.ttl now r).0 ≡ true
      → c.get l.name now r ≡ none
  granted-free l now r got = elim (Option-cases (c.get l.name now r)) [
    | inl vacant ↦ vacant
    | inr (v, taken) ↦
        let answer = laws.set_answer l.name l.owner_token l.ttl now r in cc (rw taken at answer)
  ]

  acquired-IsHeld :
      (l : DistributedLock) (deadline : ℕ) (ps : List Poll) (r : R) (since : ℕ)
      → (acquire_at c l deadline ps r).0 ≡ some since
      → IsHeld l since (since + l.ttl) (acquire_at c l deadline ps r).1
  unfolding acquire_at
  acquired-IsHeld l deadline [] r since e = cc
  acquired-IsHeld l deadline (p ∷ ps) r since e =
      let r₁ = happen_all c p.before r in
      elim (Bool-cases (ltb p.now deadline)) [
        | inr late ↦ cc (rw late at e)
        | inl early ↦ elim (Bool-cases (c.set_nx_ex l.name l.owner_token l.ttl p.now r₁).0) [
          | inl got ↦
              let same : p.now ≡ since = cc (rw (early, got) at e) in
              rw (early, got)
                (λ t a b.
                  laws.set_granted l.name l.owner_token l.ttl p.now t r₁
                    (granted-free l p.now r₁ got) (omega (arith, same)) (omega (arith, same)))
          | inr not_got ↦
              rw (early, not_got) (acquired-IsHeld l deadline ps _ since (rw (early, not_got) at e))
        ]
      ]

  refused-IsHeld :
      (l m : DistributedLock) (since until deadline : ℕ) (qs : List Poll) (r : R)
      → m.name ≡ l.name
      → All (IsForeignPoll l since until) qs
      → IsHeld l since until r
      → let (at, r') = acquire_at c m deadline qs r in (at ≡ none) × IsHeld l since until r'
  unfolding acquire_at
  refused-IsHeld l m since until deadline [] r n f h = (refl, h)
  refused-IsHeld l m since until deadline (q ∷ qs) r n (f, fs) h =
      let r₁ = happen_all c q.before r in
      let before = happen_all-IsHeld l since until q.before r f.2 h in
      let taken : c.get m.name q.now r₁ ≡ some l.owner_token = rw n (before q.now f.0 f.1) in
      let answer = laws.set_answer m.name m.owner_token m.ttl q.now r₁ in
      let refused : (c.set_nx_ex m.name m.owner_token m.ttl q.now r₁).0 ≡ false =
        rw taken at answer in
      let after = set-IsHeld l m since until q.now r₁ f.0 f.1 before in
      elim (Bool-cases (ltb q.now deadline)) [
        | inr late ↦ rw late (refl, before)
        | inl early ↦ rw (early, refused) (refused-IsHeld l m since until deadline qs _ n fs after)
      ]

  -- A process that got the lock at the time `since` has it alone for its time to live: whatever other
  -- processes set and release under other owner tokens, a second acquisition of the same name whose
  -- turns fall into that time fails, and afterwards the key still has the first owner's token.
  pub acquire_exclusive :
      (l m : DistributedLock) (deadline deadline' since now : ℕ) (ps qs : List Poll)
      (es : List Event) (r : R)
      → (acquire_at c l deadline ps r).0 ≡ some since
      → m.name ≡ l.name
      → All (IsForeign l since (since + l.ttl)) es
      → All (IsForeignPoll l since (since + l.ttl)) qs
      → since ≤ now
      → now < since + l.ttl
      → let r₁ = happen_all c es (acquire_at c l deadline ps r).1 in
        let (acquired, r₂) = acquire c m deadline' qs r₁ in
        (acquired ≡ false) × (c.get l.name now r₂ ≡ some l.owner_token)
  unfolding acquire
  acquire_exclusive l m deadline deadline' since now ps qs es r got same other polls a b =
      let until = since + l.ttl in
      let held = acquired-IsHeld l deadline ps r since got in
      let (none_got, still) =
        refused-IsHeld l m since until deadline' qs _ same polls
          (happen_all-IsHeld l since until es _ other held) in
      (ap is_some none_got, still now a b)
