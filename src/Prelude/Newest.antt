-- ===== src/Prelude/Newest.antt =====
-- Queries for the newest row: ordered by a time, the latest first.
use Prim.Native.Nat.{ℕ, ◌≤◌}
use mathlib.Core.Path.{◌≡◌, sym, subst}
use mathlib.Core.Logic.{inl, inr}
use mathlib.Core.Bool.{Bool, true, false}
use mathlib.Core.List.{List, [], ◌∷◌}
use mathlib.Core.Option.{some, none}
use native.Mathlib.Omega.{arith}
use sardoba_app_server.Prelude.Tests.{ltb, Bool-cases, Option-cases}
use sardoba_app_server.Prelude.Rows.{
  Mem, mem_head, mem_tail, All, All-insert_by, All-order_by, first, first-All, first-holds,
  insert_by, order_by,
}

pub Mem-All {ℓ κ} : {A : Type ℓ} (P : A → Type κ) (x : A) (xs : List A) → Mem x xs → All P xs → P x
Mem-All P x [] m h = elim m [ ]
Mem-All P x (y ∷ ys) (mem_head e) (h, hs) = subst P (sym e) h
Mem-All P x (y ∷ ys) (mem_tail m) (h, hs) = Mem-All P x ys m hs

module _ {ℓ} {A : Type ℓ} (p : A → Bool) where
  first-none : (xs : List A) → first p xs ≡ none → All (λ x. p x ≡ false) xs
  unfolding first
  first-none [] e = tt
  first-none (x ∷ xs) e = elim (Bool-cases (p x)) [
    | inl b ↦ cc (rw b at e)
    | inr b ↦ (b, first-none xs (rw b at e))
  ]

module _ {ℓ κ} {A : Type ℓ} (P : A → Type κ) (before : A → A → Bool) where
  All-uninserted : (x : A) (ys : List A) → All P (insert_by before x ys) → P x × All P ys
  unfolding insert_by
  All-uninserted x [] h = h
  All-uninserted x (y ∷ ys) h = elim (Bool-cases (before y x)) [
    | inl e ↦
        let (hy, rest) = rw e at h in let (hx, hs) = All-uninserted x ys rest in (hx, (hy, hs))
    | inr e ↦ rw e at h
  ]

  All-unordered : (xs : List A) → All P (order_by before xs) → All P xs
  unfolding order_by
  All-unordered [] h = tt
  All-unordered (x ∷ xs) h =
      let (hx, hs) = All-uninserted x (order_by before xs) h in (hx, All-unordered xs hs)

module _ {ℓ} {A : Type ℓ} (key : A → ℕ) where
  abbrev newest_first : A → A → Bool
  newest_first a b = ltb (key b) (key a)

  abbrev Sorted : List A → Type 0
  Sorted [] = Unit
  Sorted (x ∷ xs) = All (λ y. key y ≤ key x) xs × Sorted xs

  All-below : (n m : ℕ) (xs : List A) → n ≤ m → All (λ y. key y ≤ n) xs → All (λ y. key y ≤ m) xs
  All-below n m [] le h = tt
  All-below n m (x ∷ xs) le (h, hs) = (omega arith, All-below n m xs le hs)

  insert_by-Sorted : (x : A) (ys : List A) → Sorted ys → Sorted (insert_by newest_first x ys)
  unfolding insert_by
  insert_by-Sorted x [] h = (tt, tt)
  insert_by-Sorted x (y ∷ ys) (hy, hs) = elim (Bool-cases (ltb (key x) (key y))) [
    | inl e ↦ rw e (
      All-insert_by (λ z. key z ≤ key y) newest_first x ys (ground arith) hy,
      insert_by-Sorted x ys hs,
    )
    | inr e ↦
        let le : key y ≤ key x = ground arith in
        rw e ((le, All-below (key y) (key x) ys le hy), (hy, hs))
  ]

  order_by-Sorted : (xs : List A) → Sorted (order_by newest_first xs)
  unfolding order_by
  order_by-Sorted [] = tt
  order_by-Sorted (x ∷ xs) = insert_by-Sorted x (order_by newest_first xs) (order_by-Sorted xs)

  All-guarded :
      (p : A → Bool) (n : ℕ) (xs : List A)
      → All (λ y. key y ≤ n) xs
      → All (λ y. p y ≡ true → key y ≤ n) xs
  All-guarded p n [] h = tt
  All-guarded p n (x ∷ xs) (h, hs) = (λ e. h, All-guarded p n xs hs)

  first-newest :
      (p : A → Bool) (xs : List A) (x : A)
      → Sorted xs
      → first p xs ≡ some x
      → All (λ y. p y ≡ true → key y ≤ key x) xs
  unfolding first
  first-newest p [] x h e = cc
  first-newest p (y ∷ ys) x (hy, hs) e = elim (Bool-cases (p y)) [
    | inl b ↦
        let same : some y ≡ some x = rw b at e in
        let found : y ≡ x = cc in
        subst (λ z. All (λ y. p y ≡ true → key y ≤ key z) (y ∷ ys)) found
          (λ _. omega arith, All-guarded p (key y) ys hy)
    | inr b ↦ (λ t. cc, first-newest p ys x hs (rw b at e))
  ]

  -- A query for the newest row that passes a test finds one that is no older than a given row that
  -- passes it, and has what all the rows have.
  pub newest-found {κ} :
      (p : A → Bool) (P : A → Type κ) (xs : List A) (c : A)
      → Mem c xs
      → p c ≡ true
      → All P xs
      → (d : A) × (first p (order_by newest_first xs) ≡ some d)
        × (p d ≡ true)
        × P d
        × (key c ≤ key d)
  newest-found p P xs c m h hs = elim (Option-cases (first p (order_by newest_first xs))) [
    | inl e ↦
        let none_fits = All-unordered (λ x. p x ≡ false) newest_first xs (first-none p _ e) in
        cc (Mem-All (λ x. p x ≡ false) c xs m none_fits)
    | inr (d, e) ↦
        let newest =
          All-unordered (λ y. p y ≡ true → key y ≤ key d) newest_first xs
            (first-newest p _ d (order_by-Sorted xs) e) in
        (
          d,
          e,
          first-holds p _ e,
          first-All P p _ (All-order_by P newest_first xs hs) e,
          Mem-All (λ y. p y ≡ true → key y ≤ key d) c xs m newest h,
        )
  ]
