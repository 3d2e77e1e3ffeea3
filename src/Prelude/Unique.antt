-- ===== src/Prelude/Unique.antt =====
-- Columns that are unique, and columns of ids: what adding and updating rows does to them.
use Prim.Native.Nat.{ℕ, ◌+◌, ◌≤◌, ◌<◌}
use Prim.Native.String.{String}
use text.Mathlib.Text.{◌==◌ as str_eq}
use text.Mathlib.TextEquality.{eq_iff}
use text.Mathlib.TextPositions.{eq_refl}
use mathlib.Core.Path.{◌≡◌, refl, ap}
use mathlib.Core.Bool.{Bool, true, false, not, ◌&&◌}
use mathlib.Core.List.{List, [], ◌∷◌, ◌++◌}
use mathlib.Core.Option.{Option, none, some}
use mathlib.Core.Logic.{inl, inr, ◌⊎◌}
use native.Mathlib.Omega.{arith}
use sardoba_app_server.Prelude.Tests.{◌==◌, Option-cases, Bool-cases}
use sardoba_app_server.Prelude.Rows.{
  count, update_rows, All, All-append, All-update_rows, first, select, first-holds,
}
use sardoba_app_server.Prelude.Selection.{count-append, first-count, count-first}

module _ {ℓ} {A : Type ℓ} (p q : A → Bool) where
  -- An update of some rows, counted row by row.
  pub count-update_rows_split :
      (f : A → A) (xs : List A)
      → count p (update_rows q f xs)
        ≡ count (λ x. p x && not (q x)) xs + count (λ x. q x && p (f x)) xs
  unfolding count update_rows
  count-update_rows_split f [] = refl
  count-update_rows_split f (x ∷ xs) = ground (arith, count-update_rows_split f xs)

  pub count-and-le : (xs : List A) → count (λ x. p x && q x) xs ≤ count p xs
  unfolding count
  count-and-le [] = omega arith
  count-and-le (x ∷ xs) = ground (arith, count-and-le xs)

  pub count-update_rows_same :
      (f : A → A)
      → ((x : A) → q x ≡ true → p (f x) ≡ p x)
      → (xs : List A) → count p (update_rows q f xs) ≡ count p xs
  unfolding count update_rows
  count-update_rows_same f h [] = refl
  count-update_rows_same f h (x ∷ xs) = ground (arith, h x, count-update_rows_same f h xs)

  pub count-select-le : (xs : List A) → count p (select q xs) ≤ count p xs
  unfolding count select
  count-select-le [] = omega arith
  count-select-le (x ∷ xs) = ground (arith, count-select-le xs)

  count-split :
      (xs : List A) → count p xs ≡ count (λ x. p x && not (q x)) xs + count (λ x. q x && p x) xs
  unfolding count
  count-split [] = refl
  count-split (x ∷ xs) = ground (arith, count-split xs)

  -- The row that `q` finds is the one that has what only one row may have.
  pub count-others :
      (xs : List A) (w : A)
      → count p xs ≤ 1
      → first q xs ≡ some w
      → p w ≡ true
      → count (λ x. p x && not (q x)) xs ≡ 0
  count-others xs w h e holds = omega (
    arith,
    count-split xs,
    count-first q (λ x. q x && p x) xs w e (rw (first-holds q xs e, holds) refl),
  )

  pub count-le_of_imp :
      ((x : A) → p x ≡ true → q x ≡ true) → (xs : List A) → count p xs ≤ count q xs
  unfolding count
  count-le_of_imp h [] = omega arith
  count-le_of_imp h (x ∷ xs) = ground (arith, h x, count-le_of_imp h xs)

and_left : (a b : Bool) → (a && b) ≡ true → a ≡ true
and_left a b h = ground arith

and_right : (a : Bool) {b : Bool} → (a && b) ≡ true → b ≡ true
and_right a h = ground arith

module _ {ℓ} {A : Type ℓ} (p : A → Bool) where
  pub count-add_unique :
      (xs : List A) (x : A)
      → count p xs ≤ 1
      → (p x ≡ true → count p xs ≡ 0)
      → count p (xs ++ x ∷ []) ≤ 1
  unfolding count
  count-add_unique xs x h fresh = ground (arith, count-append p xs (x ∷ []), fresh)

  -- At most one row is updated, and no row that stays satisfies `p` if the updated one does.
  pub count-update_unique :
      (q : A → Bool) (f : A → A) (xs : List A)
      → count p xs ≤ 1
      → count q xs ≤ 1
      → ((x : A) → p (f x) ≡ true → count (λ y. p y && not (q y)) xs ≡ 0)
      → count p (update_rows q f xs) ≤ 1
  count-update_unique q f xs hp hq hf =
      let here : A → Bool = λ x. q x && p (f x) in
      elim (Option-cases (first here xs)) [
        | inl e ↦ omega (
          arith,
          count-update_rows_split p q f xs,
          first-count here xs e,
          count-and-le p (λ x. not (q x)) xs,
        )
        | inr (x, e) ↦ omega (
          arith,
          count-update_rows_split p q f xs,
          count-and-le q (λ x. p (f x)) xs,
          hf x (and_right (q x) (first-holds here xs e)),
        )
      ]

module _ {ℓ} {A : Type ℓ} (id : A → ℕ) where
  pub count-below : (n : ℕ) (xs : List A) → All (λ x. id x < n) xs → count (λ x. id x == n) xs ≡ 0
  unfolding count
  count-below n [] h = refl
  count-below n (x ∷ xs) h = ground (arith, h.0, count-below n xs h.1)

-- Ids: no two rows have one, and the next one is free.
pub record HasIds {ℓ} {A : Type ℓ} (id : A → ℕ) (next : ℕ) (xs : List A) : Type ℓ where
  pub unique : (n : ℕ) → count (λ x. id x == n) xs ≤ 1
  pub below : All (λ x. id x < next) xs

module _ {ℓ} {A : Type ℓ} (id : A → ℕ) where
  All-weaken : (next : ℕ) (xs : List A) → All (λ x. id x < next) xs → All (λ x. id x < next + 1) xs
  All-weaken next [] h = tt
  All-weaken next (x ∷ xs) h = (omega (arith, h.0), All-weaken next xs h.1)

  pub HasIds-append :
      (next : ℕ) (xs : List A) (x : A)
      → HasIds id next xs
      → id x ≡ next
      → HasIds id (next + 1) (xs ++ x ∷ [])
  HasIds-append next xs x h e = record {
    unique = λ n.
        count-add_unique (λ y. id y == n) xs x (h.unique n)
          (λ same. rw (id-eq n same) (count-below id next xs h.below));
    below =
        All-append (λ y. id y < next + 1) xs (x ∷ []) (All-weaken next xs h.below)
          (omega arith, tt);
  }
    where
      id-eq : (n : ℕ) → (id x == n) ≡ true → n ≡ next
      id-eq n same = ground arith

  pub HasIds-update_rows :
      (next : ℕ) (q : A → Bool) (f : A → A) (xs : List A)
      → ((x : A) → q x ≡ true → id (f x) ≡ id x)
      → HasIds id next xs
      → HasIds id next (update_rows q f xs)
  HasIds-update_rows next q f xs keep h = record {
    unique = λ n.
        rw (count-update_rows_same (λ y. id y == n) q f (λ x e. rw (keep x e) refl) xs)
          (h.unique n);
    below = All-update_rows (λ y. id y < next) q f (λ x l e. rw (keep x e) l) xs h.below;
  }

-- `column = text`: NULL is no text.
abbrev pub holds_text : Option String → String → Bool
holds_text none t = false
holds_text (some s) t = str_eq s t

-- A column of texts, NULL aside, without repetition.
abbrev pub IsUniqueColumn {ℓ} : {A : Type ℓ} → (A → Option String) → List A → Type 0
IsUniqueColumn column xs = (t : String) → count (λ x. holds_text (column x) t) xs ≤ 1

pub holds_text-eq : (v : Option String) (t : String) → holds_text v t ≡ true → v ≡ some t
holds_text-eq none t e = cc
holds_text-eq (some s) t e = ap some ((eq_iff s t).0 e)

module _ {ℓ} {A : Type ℓ} (column : A → Option String) where
  -- A row whose text nobody has may be added.
  pub IsUniqueColumn-append :
      (xs : List A) (x : A)
      → IsUniqueColumn column xs
      → ((t : String) → column x ≡ some t → count (λ y. holds_text (column y) t) xs ≡ 0)
      → IsUniqueColumn column (xs ++ x ∷ [])
  IsUniqueColumn-append xs x h free t =
      count-add_unique (λ y. holds_text (column y) t) xs x (h t)
        (λ e. free t (holds_text-eq (column x) t e))

  -- At most one row gets a text that none of the others has.
  pub IsUniqueColumn-set :
      (q : A → Bool) (f : A → A) (v : Option String) (xs : List A)
      → ((x : A) → column (f x) ≡ v)
      → IsUniqueColumn column xs
      → count q xs ≤ 1
      → ((t : String) → v ≡ some t → count (λ y. holds_text (column y) t && not (q y)) xs ≡ 0)
      → IsUniqueColumn column (update_rows q f xs)
  IsUniqueColumn-set q f v xs set h few free t =
      count-update_unique (λ y. holds_text (column y) t) q f xs (h t) few
        (λ x e. free t (holds_text-eq v t (rw (set x) at e)))

  -- The column is left alone.
  pub IsUniqueColumn-keep :
      (q : A → Bool) (f : A → A) (xs : List A)
      → ((x : A) → q x ≡ true → column (f x) ≡ column x)
      → IsUniqueColumn column xs
      → IsUniqueColumn column (update_rows q f xs)
  IsUniqueColumn-keep q f xs keep h t =
      rw
        (count-update_rows_same (λ y. holds_text (column y) t) q f
          (λ x e. ap (λ c. holds_text c t) (keep x e)) xs)
        (h t)

  -- The row that is found is replaced, and whatever text the new one has was the old one's or is free.
  pub IsUniqueColumn-replace :
      (q : A → Bool) (w c : A) (xs : List A)
      → IsUniqueColumn column xs
      → count q xs ≤ 1
      → first q xs ≡ some w
      → ((t : String)
          → column c ≡ some t
          → (column w ≡ some t) ⊎ (count (λ y. holds_text (column y) t && not (q y)) xs ≡ 0))
      → IsUniqueColumn column (update_rows q (λ _. c) xs)
  IsUniqueColumn-replace q w c xs h few e free =
      IsUniqueColumn-set q (λ _. c) (column c) xs (λ x. refl) h few
        (λ t same. elim (free t same) [
          | inl old ↦
              count-others (λ y. holds_text (column y) t) q xs w (h t) e (rw old (eq_refl t))
          | inr none_else ↦ none_else
        ])

  pub IsUniqueColumn-select :
      (q : A → Bool) (xs : List A) → IsUniqueColumn column xs → IsUniqueColumn column (select q xs)
  IsUniqueColumn-select q xs h t =
      omega (arith, h t, count-select-le (λ y. holds_text (column y) t) q xs)

-- The row with an id is replaced.
pub HasIds-replace {ℓ} :
    {A : Type ℓ} (id : A → ℕ) (next : ℕ) (xs : List A) (c : A)
    → HasIds id next xs
    → HasIds id next (update_rows (λ x. id x == id c) (λ _. c) xs)
HasIds-replace id next xs c h =
    HasIds-update_rows id next (λ x. id x == id c) (λ _. c) xs (λ x e. ground arith) h

module _ {ℓ} {A : Type ℓ} (id : A → ℕ) (next : ℕ) (q : A → Bool) where
  All-select_below :
      (xs : List A) → All (λ x. id x < next) xs → All (λ x. id x < next) (select q xs)
  unfolding select
  All-select_below [] h = tt
  All-select_below (x ∷ xs) h = elim (Bool-cases (q x)) [
    | inl e ↦ rw e (h.0, All-select_below xs h.1)
    | inr e ↦ rw e (All-select_below xs h.1)
  ]

  pub HasIds-select : (xs : List A) → HasIds id next xs → HasIds id next (select q xs)
  HasIds-select xs h = record {
    unique = λ n. omega (arith, h.unique n, count-select-le (λ x. id x == n) q xs);
    below = All-select_below xs h.below;
  }

module _ {ℓ} {A : Type ℓ} (id : A → ℕ) (p : A → Bool) where
  -- Where ids are unique, a row that is found by its id and more is the row of that id.
  pub first-id :
      (n : ℕ) (xs : List A) (w : A)
      → count (λ x. id x == n) xs ≤ 1
      → first (λ x. id x == n && p x) xs ≡ some w
      → first (λ x. id x == n) xs ≡ some w
  unfolding first count
  first-id n [] w few e = cc
  first-id n (x ∷ xs) w few e = elim (Bool-cases (id x == n)) [
    | inl same ↦ elim (Bool-cases (p x)) [
      | inl good ↦ rw same (rw (same, good) at e)
      | inr bad ↦ absurd (
          omega (
            arith,
            rw same at few,
            count-first (λ y. id y == n && p y) (λ y. id y == n) xs w (rw (same, bad) at e)
                (and_left (id w == n) (p w)
                  (first-holds (λ y. id y == n && p y) xs (rw (same, bad) at e))),
          ))
    ]
    | inr other ↦ rw other (first-id n xs w (omega (arith, rw other at few)) (rw other at e))
  ]
