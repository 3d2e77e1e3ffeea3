-- ===== src/Prelude/Selection.antt =====
-- How many rows a query selects, whatever the order and the limit.
use Prim.Native.Nat.{ℕ, zero, suc, ◌+◌, ◌≤◌, ◌<◌, min}
use mathlib.Core.Path.{◌≡◌, refl}
use mathlib.Core.Bool.{Bool, true, false, not}
use mathlib.Core.List.{List, [], ◌∷◌, ◌++◌}
use mathlib.Core.Option.{none, some}
use native.Mathlib.Omega.{arith}
use sardoba_app_server.Prelude.Tests.{if◌then◌else◌}
use sardoba_app_server.Prelude.Rows.{
  length, take, first, select, update_rows, count, insert_by, order_by,
}

module _ {ℓ} {A : Type ℓ} (p : A → Bool) where
  count-insert_by :
      (before : A → A → Bool) (x : A) (xs : List A)
      → count p (insert_by before x xs) ≡ (if p x then 1 else 0) + count p xs
  unfolding count insert_by
  count-insert_by before x [] = refl
  count-insert_by before x (y ∷ ys) = ground (arith, count-insert_by before x ys)

  pub count-order_by :
      (before : A → A → Bool) (xs : List A) → count p (order_by before xs) ≡ count p xs
  unfolding count order_by
  count-order_by before [] = refl
  count-order_by before (x ∷ xs) =
      omega (arith, count-insert_by before x (order_by before xs), count-order_by before xs)

  pub length-select : (xs : List A) → length (select p xs) ≡ count p xs
  unfolding count select
  length-select [] = refl
  length-select (x ∷ xs) = ground (arith, length-select xs)

  pub count-append : (xs ys : List A) → count p (xs ++ ys) ≡ count p xs + count p ys
  unfolding count
  count-append [] ys = omega arith
  count-append (x ∷ xs) ys = omega (arith, count-append xs ys)

  pub first-count : (xs : List A) → first p xs ≡ none → count p xs ≡ 0
  unfolding count first
  first-count [] e = refl
  first-count (x ∷ xs) e = ground (arith, first-count xs)

  pub count-first-some : (xs : List A) (x : A) → first p xs ≡ some x → 0 < count p xs
  unfolding count first
  count-first-some [] x e = cc
  count-first-some (y ∷ xs) x e = ground (arith, count-first-some xs x)

  -- An update that keeps `p` where it holds loses no row of the query.
  pub count-update_rows :
      (q : A → Bool) (f : A → A)
      → ((x : A) → p x ≡ true → p (f x) ≡ true)
      → (xs : List A) → count p xs ≤ count p (update_rows q f xs)
  unfolding count update_rows
  count-update_rows q f keep [] = omega arith
  count-update_rows q f keep (x ∷ xs) = ground (arith, keep x, count-update_rows q f keep xs)

module _ {ℓ} {A : Type ℓ} where
  length-insert_by :
      (before : A → A → Bool) (x : A) (xs : List A)
      → length (insert_by before x xs) ≡ suc (length xs)
  unfolding insert_by
  length-insert_by before x [] = refl
  length-insert_by before x (y ∷ ys) = ground (arith, length-insert_by before x ys)

  pub length-order_by :
      (before : A → A → Bool) (xs : List A) → length (order_by before xs) ≡ length xs
  unfolding order_by
  length-order_by before [] = refl
  length-order_by before (x ∷ xs) =
      omega (arith, length-insert_by before x (order_by before xs), length-order_by before xs)

  pub length-take : (n : ℕ) (xs : List A) → length (take n xs) ≡ min n (length xs)
  length-take zero xs = omega arith
  length-take (suc n) [] = omega arith
  length-take (suc n) (x ∷ xs) = omega (arith, length-take n xs)

module _ {ℓ} {A : Type ℓ} (p q : A → Bool) where
  -- A row that the first query returns is counted by any test that it passes.
  pub count-first : (xs : List A) (x : A) → first p xs ≡ some x → q x ≡ true → 0 < count q xs
  unfolding count first
  count-first [] x e h = cc
  count-first (y ∷ xs) x e h = ground (arith, count-first xs x)

  -- An update takes the rows that it changes out of a query, where each of them was in the query and
  -- none is afterwards.
  pub count-consumed :
      (f : A → A)
      → ((x : A) → q x ≡ true → p x ≡ true)
      → ((x : A) → p (f x) ≡ false)
      → (xs : List A) → count p (update_rows q f xs) + count q xs ≡ count p xs
  unfolding count update_rows
  count-consumed f inside gone [] = refl
  count-consumed f inside gone (x ∷ xs) =
      ground (arith, inside x, gone x, count-consumed f inside gone xs)

module _ {ℓ} {A : Type ℓ} (p : A → Bool) where
  pub count-removed : (xs : List A) → count p (select (λ x. not (p x)) xs) ≡ 0
  unfolding count select
  count-removed [] = refl
  count-removed (x ∷ xs) = ground (arith, count-removed xs)

  -- What `q` finds is found among the rows that a deletion by `p` leaves.
  pub first-kept :
      (q : A → Bool)
      → ((x : A) → q x ≡ true → p x ≡ false)
      → (xs : List A) → first q (select (λ x. not (p x)) xs) ≡ first q xs
  unfolding first select
  first-kept q apart [] = refl
  first-kept q apart (x ∷ xs) = ground (arith, apart x, first-kept q apart xs)

  pub select-append : (xs ys : List A) → select p (xs ++ ys) ≡ select p xs ++ select p ys
  unfolding select
  select-append [] ys = refl
  select-append (x ∷ xs) ys = ground (arith, select-append xs ys)

  -- A deletion that finds nothing leaves the rows as they are.
  pub select-none : (xs : List A) → count p xs ≡ 0 → select (λ x. not (p x)) xs ≡ xs
  unfolding select count
  select-none [] h = refl
  select-none (x ∷ xs) h = ground (arith, select-none xs)

  pub first-append_new :
      (xs : List A) (x : A) → count p xs ≡ 0 → p x ≡ true → first p (xs ++ x ∷ []) ≡ some x
  unfolding first count
  first-append_new [] x h e = rw e refl
  first-append_new (y ∷ xs) x h e = ground (arith, first-append_new xs x)
