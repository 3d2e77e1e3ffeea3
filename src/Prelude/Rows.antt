-- ===== src/Prelude/Rows.antt =====
-- Tables as lists of rows: the queries and updates that the services make, and their laws.
use Prim.Native.Nat.{ℕ, zero, suc, ◌+◌, ◌≤◌}
use mathlib.Core.Path.{◌≡◌, refl, ap}
use mathlib.Core.Bool.{Bool, true, false}
use mathlib.Core.List.{List, [], ◌∷◌, ◌++◌}
use mathlib.Core.Option.{Option, none, some}
use native.Mathlib.Omega.{arith}
use mathlib.Core.Logic.{inl, inr}
use sardoba_app_server.Prelude.Tests.{if◌then◌else◌, Bool-cases}

module _ {ℓ} {A : Type ℓ} where
  abbrev pub length : List A → ℕ
  length [] = 0
  length (x ∷ xs) = suc (length xs)

  abbrev pub take : ℕ → List A → List A
  take zero xs = []
  take (suc n) [] = []
  take (suc n) (x ∷ xs) = x ∷ take n xs

  abbrev pub get_elem? : List A → ℕ → Option A
  get_elem? [] i = none
  get_elem? (x ∷ xs) zero = some x
  get_elem? (x ∷ xs) (suc i) = get_elem? xs i

  pub length-append : (xs ys : List A) → length (xs ++ ys) ≡ length xs + length ys
  length-append [] ys = omega arith
  length-append (x ∷ xs) ys = omega (arith, length-append xs ys)

  pub length-take-le : (n : ℕ) (xs : List A) → length (take n xs) ≤ n
  length-take-le zero xs = omega arith
  length-take-le (suc n) [] = omega arith
  length-take-le (suc n) (x ∷ xs) = omega (arith, length-take-le n xs)

  -- `query.filter(p).first()`: the first matching row, in the order of the list.
  unfoldable pub first : (A → Bool) → List A → Option A
  first p [] = none
  first p (x ∷ xs) = if p x then some x else first p xs

  -- `query.filter(p).all()`.
  unfoldable pub select : (A → Bool) → List A → List A
  select p [] = []
  select p (x ∷ xs) = let rest = select p xs in if p x then x ∷ rest else rest

  -- Assignments to the attributes of the rows that satisfy `p`.
  unfoldable pub update_rows : (A → Bool) → (A → A) → List A → List A
  update_rows p f [] = []
  update_rows p f (x ∷ xs) = (if p x then f x else x) ∷ update_rows p f xs

  unfoldable pub count : (A → Bool) → List A → ℕ
  count p [] = 0
  count p (x ∷ xs) = (if p x then 1 else 0) + count p xs

  unfoldable pub insert_by : (A → A → Bool) → A → List A → List A
  insert_by before x [] = x ∷ []
  insert_by before x (y ∷ ys) =
      let rest = insert_by before x ys in if before y x then y ∷ rest else x ∷ y ∷ ys

  -- `order_by`: `before y x` says that `y` may stand before `x`.
  unfoldable pub order_by : (A → A → Bool) → List A → List A
  unfolding insert_by
  order_by before [] = []
  order_by before (x ∷ xs) = insert_by before x (order_by before xs)

  -- A predicate on every row, by recursion, so that it computes to tuples.
  abbrev pub All {κ} : (A → Type κ) → List A → Type κ
  All P [] = Unit
  All P (x ∷ xs) = P x × All P xs

module _ {ℓ} {A : Type ℓ} where
  pub data Mem (x : A) : List A → Type ℓ where
    mem_head : {y : A} {ys : List A} → x ≡ y → Mem x (y ∷ ys)
    mem_tail : {y : A} {ys : List A} → Mem x ys → Mem x (y ∷ ys)

module _ {ℓ κ} {A : Type ℓ} (P : A → Type κ) where
  pub All-append : (xs ys : List A) → All P xs → All P ys → All P (xs ++ ys)
  All-append [] ys hx hy = hy
  All-append (x ∷ xs) ys hx hy = (hx.0, All-append xs ys hx.1 hy)

  pub All-take : (n : ℕ) (xs : List A) → All P xs → All P (take n xs)
  All-take zero xs h = tt
  All-take (suc n) [] h = tt
  All-take (suc n) (x ∷ xs) h = (h.0, All-take n xs h.1)

  All-cons_if :
      (b : Bool) (x : A) (xs : List A)
      → (b ≡ true → P x)
      → All P xs
      → All P (if b then x ∷ xs else xs)
  All-cons_if true x xs hx h = (hx refl, h)
  All-cons_if false x xs hx h = h

  pub All-select :
      (p : A → Bool) (xs : List A) → All (λ x. p x ≡ true → P x) xs → All P (select p xs)
  unfolding select
  All-select p [] h = tt
  All-select p (x ∷ xs) h = All-cons_if (p x) x (select p xs) h.0 (All-select p xs h.1)

  pub All-insert_by :
      (before : A → A → Bool) (x : A) (ys : List A) → P x → All P ys → All P (insert_by before x ys)
  unfolding insert_by
  All-insert_by before x [] hx h = (hx, tt)
  All-insert_by before x (y ∷ ys) hx h = elim (Bool-cases (before y x)) [
    | inl e ↦ rw e (h.0, All-insert_by before x ys hx h.1)
    | inr e ↦ rw e (hx, h)
  ]

  pub All-order_by : (before : A → A → Bool) (xs : List A) → All P xs → All P (order_by before xs)
  unfolding order_by
  All-order_by before [] h = tt
  All-order_by before (x ∷ xs) h =
      All-insert_by before x (order_by before xs) h.0 (All-order_by before xs h.1)

  row_if : (b : Bool) (f : A → A) (x : A) → (b ≡ true → P (f x)) → P x → P (if b then f x else x)
  row_if true f x hf h = hf refl
  row_if false f x hf h = h

  -- An update keeps a row predicate if it does so at the rows that it changes.
  pub All-update_rows :
      (p : A → Bool) (f : A → A)
      → ((x : A) → P x → p x ≡ true → P (f x))
      → (xs : List A) → All P xs
      → All P (update_rows p f xs)
  unfolding update_rows
  All-update_rows p f keep [] h = tt
  All-update_rows p f keep (x ∷ xs) h =
      (row_if (p x) f x (keep x h.0) h.0, All-update_rows p f keep xs h.1)

  pub first-All : (p : A → Bool) (xs : List A) {x : A} → All P xs → first p xs ≡ some x → P x
  unfolding first
  first-All p [] h e = cc
  first-All p (y ∷ xs) {x} h e = elim (Bool-cases (p y)) [
    | inl b ↦ ground (arith, h.0)
    | inr b ↦ first-All p xs h.1 (rw b at e)
  ]

module _ {ℓ} {A : Type ℓ} (p : A → Bool) where
  pub first-holds : (xs : List A) {x : A} → first p xs ≡ some x → p x ≡ true
  unfolding first
  first-holds [] e = cc
  first-holds (y ∷ xs) {x} e = ground (arith, first-holds xs {x = x})

  pub length-update_rows : (f : A → A) (xs : List A) → length (update_rows p f xs) ≡ length xs
  unfolding update_rows
  length-update_rows f [] = refl
  length-update_rows f (x ∷ xs) = ap suc (length-update_rows f xs)

  -- Nothing matches: the update is the identity.
  pub update_rows-none : (f : A → A) (xs : List A) → first p xs ≡ none → update_rows p f xs ≡ xs
  unfolding first update_rows
  update_rows-none f [] e = refl
  update_rows-none f (x ∷ xs) e = ground (arith, update_rows-none f xs)
