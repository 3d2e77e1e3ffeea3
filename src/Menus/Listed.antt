-- ===== src/Menus/Listed.antt =====
-- No price is lost when menus are merged: app/services/ikko_myresto_menu.py.
use text.Mathlib.Text.{◌==◌ as str_eq}
use text.Mathlib.TextEquality.{eq_iff}
use sardoba_app_server.Prelude.{
  ℕ, ◌≡◌, refl, String, Bool, true, false, Option, none, some, List, [], ◌∷◌, map, inl, inr, ◌⊎◌,
  All, Bool-cases, ◌==◌, leb, length, ap, sym, ◌∙◌, arith,
}
use sardoba_app_server.Prelude.Int.{ℤ}
use sardoba_app_server.Menus.{
  RawPrice, RawItem, RawCategory, ItemSize, Price, Item, MergedCategory, Branches, Normalised,
  upsert, put_price, put_given, priced, convert_prices, default_size, with_prices, normalise_item,
  key_of, merge_prices, merge_into, merge_normalised, merge_items, merge_category, merge_payload,
  merge_payloads, insert_sorted, sort_prices, output_item, output_category,
}
use sardoba_app_server.Menus.Marks.{
  HasId, HasIds, Marked, MarkedNew, Merged, normalise_item-MarkedNew, key_of-id,
  merge_normalised-Marked, merge_category-Merged, merge_payload-Merged,
}

abbrev pub Any {ℓ} : {A : Type ℓ} → (A → Type 0) → List A → Type 0
Any P [] = ⊥
Any P (x ∷ xs) = P x ⊎ Any P xs

pub Any-map {ℓ} :
    {A : Type ℓ} (P Q : A → Type 0) (f : A → A) (xs : List A)
    → ((x : A) → P x → Q (f x))
    → Any P xs
    → Any Q (map f xs)
Any-map P Q f [] h a = absurd a
Any-map P Q f (x ∷ xs) h (inl p) = inl (h x p)
Any-map P Q f (x ∷ xs) h (inr ps) = inr (Any-map P Q f xs h ps)

module _ {ℓ} {A : Type ℓ} (P : A → Type 0) (p : A → Bool) (f : A → A) (new : A) where
  Any-upsert_keep :
      (xs : List A) → ((x : A) → p x ≡ true → P x → P (f x)) → Any P xs → Any P (upsert p f new xs)
  unfolding upsert
  Any-upsert_keep [] h a = absurd a
  Any-upsert_keep (x ∷ xs) h (inl a) = elim (Bool-cases (p x)) [
    | inl e ↦ rw e (inl (h x e a))
    | inr e ↦ rw e (inl a)
  ]
  Any-upsert_keep (x ∷ xs) h (inr a) = elim (Bool-cases (p x)) [
    | inl e ↦ rw e (inr a)
    | inr e ↦ rw e (inr (Any-upsert_keep xs h a))
  ]

  Any-upsert_new {μ} :
      (G : A → Type μ) (xs : List A)
      → ((x : A) → p x ≡ true → G x → P (f x))
      → P (f new)
      → All G xs
      → Any P (upsert p f new xs)
  unfolding upsert
  Any-upsert_new G [] h n gs = inl n
  Any-upsert_new G (x ∷ xs) h n (g, gs) = elim (Bool-cases (p x)) [
    | inl e ↦ rw e (inl (h x e g))
    | inr e ↦ rw e (inr (Any-upsert_new G xs h n gs))
  ]

-- A price of the store.
abbrev pub IsOf : ℕ → Price → Type 0
IsOf store p = p.store_id ≡ store

module _ (store : ℕ) where
  put_price-keep :
      (p : Price) (ps : List Price) → Any (IsOf store) ps → Any (IsOf store) (put_price p ps)
  unfolding put_price
  put_price-keep p ps =
      Any-upsert_keep (IsOf store) (λ q. q.store_id == p.store_id) (λ _. p) p ps
        (λ q same e. ground arith)

  put_price-new : (p : Price) (ps : List Price) → IsOf store p → Any (IsOf store) (put_price p ps)
  unfolding put_price
  put_price-new p ps e =
      Any-upsert_new (IsOf store) (λ q. q.store_id == p.store_id) (λ _. p) p (λ _. Unit) ps
        (λ q same g. e) e (all_units ps)
    where
      all_units : (ps : List Price) → All (λ _. Unit {0}) ps
      all_units [] = tt
      all_units (q ∷ qs) = (tt, all_units qs)

  put_given-keep :
      (given : Option Price) (ps : List Price)
      → Any (IsOf store) ps
      → Any (IsOf store) (put_given given ps)
  put_given-keep none ps a = a
  put_given-keep (some p) ps a = put_price-keep p ps a

  merge_prices-keep :
      (ns ps : List Price) → Any (IsOf store) ps → Any (IsOf store) (merge_prices ns ps)
  unfolding merge_prices
  merge_prices-keep [] ps a = a
  merge_prices-keep (n ∷ ns) ps a = merge_prices-keep ns (put_price n ps) (put_price-keep n ps a)

  merge_prices-new :
      (ns ps : List Price) → Any (IsOf store) ns → Any (IsOf store) (merge_prices ns ps)
  unfolding merge_prices
  merge_prices-new [] ps a = absurd a
  merge_prices-new (n ∷ ns) ps (inl e) =
      merge_prices-keep ns (put_price n ps) (put_price-new n ps e)
  merge_prices-new (n ∷ ns) ps (inr a) = merge_prices-new ns (put_price n ps) a

  insert_sorted-Any :
      (p : Price) (ps : List Price)
      → IsOf store p ⊎ Any (IsOf store) ps
      → Any (IsOf store) (insert_sorted p ps)
  unfolding insert_sorted
  insert_sorted-Any p [] a = a
  insert_sorted-Any p (q ∷ qs) (inl b) = elim (Bool-cases (leb p.store_id q.store_id)) [
    | inl e ↦ rw e (inl b)
    | inr e ↦ rw e (inr (insert_sorted-Any p qs (inl b)))
  ]
  insert_sorted-Any p (q ∷ qs) (inr (inl b)) = elim (Bool-cases (leb p.store_id q.store_id)) [
    | inl e ↦ rw e (inr (inl b))
    | inr e ↦ rw e (inl b)
  ]
  insert_sorted-Any p (q ∷ qs) (inr (inr b)) = elim (Bool-cases (leb p.store_id q.store_id)) [
    | inl e ↦ rw e (inr (inr b))
    | inr e ↦ rw e (inr (insert_sorted-Any p qs (inr b)))
  ]

  pub sort_prices-Any : (ps : List Price) → Any (IsOf store) ps → Any (IsOf store) (sort_prices ps)
  unfolding sort_prices
  sort_prices-Any [] a = absurd a
  sort_prices-Any (p ∷ ps) (inl e) = insert_sorted-Any p (sort_prices ps) (inl e)
  sort_prices-Any (p ∷ ps) (inr a) =
      insert_sorted-Any p (sort_prices ps) (inr (sort_prices-Any ps a))

  -- The branch has a price for the store.
  abbrev pub IsGiven : RawPrice → Type 0
  IsGiven r = (r.store_id ≡ some store) × (amount : ℤ) × (r.price ≡ some amount)

  module _ (b : Branches) where
    convert_prices-keep :
        (id : Option String) (rs : List RawPrice) (ps : List Price)
        → Any (IsOf store) ps
        → Any (IsOf store) (convert_prices b id rs ps)
    unfolding convert_prices
    convert_prices-keep id [] ps a = a
    convert_prices-keep id (r ∷ rs) ps a =
        convert_prices-keep id rs _ (put_given-keep (priced b id r.store_id r.price) ps a)

    convert_prices-new :
        (id : Option String) (rs : List RawPrice) (ps : List Price)
        → Any IsGiven rs
        → Any (IsOf store) (convert_prices b id rs ps)
    unfolding convert_prices
    convert_prices-new id [] ps a = absurd a
    convert_prices-new id (r ∷ rs) ps (inl (e, amount, e')) =
        rw (e, e') (convert_prices-keep id rs _ (put_price-new _ ps refl))
    convert_prices-new id (r ∷ rs) ps (inr a) = convert_prices-new id rs _ a

-- The item is there with a price for the store.
abbrev pub HasPrice : Option String → ℕ → Item → Type 0
HasPrice id store x = (x.id ≡ id) × Any (IsOf store) x.prices

abbrev pub Lists : Option String → ℕ → MergedCategory → Type 0
Lists id store t = Any (HasPrice id store) t.items

-- The branch sells the item: it is shown, and its default size has a price for the store.
abbrev pub IsSold : Option String → ℕ → RawItem → Type 0
IsSold id store i =
    (i.item_id ≡ id)
    × (i.is_hidden ≡ false)
    × (s : ItemSize) × (default_size i.item_sizes ≡ some s)
    × Any (IsGiven store) s.prices

abbrev pub Sells : Option String → ℕ → RawCategory → Type 0
Sells id store c = (c.is_hidden ≡ false) × Any (IsSold id store) c.items

module _ (b : Branches) (id : Option String) (store : ℕ) where
  -- What a sold item adds.
  abbrev Adds : Option Normalised → Type 0
  Adds none = ⊥
  Adds (some n) = (n.id ≡ id) × Any (IsOf store) n.prices

  with_prices-Adds :
      (i : RawItem) (s : ItemSize) (ps : List Price)
      → i.item_id ≡ id
      → Any (IsOf store) ps
      → Adds (with_prices i s ps)
  with_prices-Adds i s [] e a = absurd a
  with_prices-Adds i s (p ∷ ps) e a = (e, a)

  normalise_item-Adds : (i : RawItem) → IsSold id store i → Adds (normalise_item b i)
  unfolding normalise_item
  normalise_item-Adds i (e, shown, s, size, a) =
      rw (shown, size)
        (with_prices-Adds i s _ e (convert_prices-new store b i.item_id s.prices [] a))

  merge_normalised-keep :
      (n : Option Normalised) (xs : List Item)
      → Any (HasPrice id store) xs
      → Any (HasPrice id store) (merge_normalised b n xs)
  merge_normalised-keep none xs a = a
  merge_normalised-keep (some n) xs a =
      let key = key_of b n.id n.slug (length xs) in
      let new : Item = record { key = key; id = n.id; name = n.name; prices = []; images = [] } in
      Any-upsert_keep (HasPrice id store) (λ x. str_eq x.key key) (merge_into n) new xs
        (λ x same h. (h.0, merge_prices-keep store n.prices x.prices h.1)) a

  merge_normalised-new :
      (n : Option Normalised) (xs : List Item)
      → MarkedNew b n
      → All (Marked b) xs
      → Adds n
      → Any (HasPrice id store) (merge_normalised b n xs)
  merge_normalised-new none xs h hs a = absurd a
  merge_normalised-new (some n) xs (has, hn) hs (e, a) =
      let key = key_of b n.id n.slug (length xs) in
      let new : Item = record { key = key; id = n.id; name = n.name; prices = []; images = [] } in
      let own = key_of-id b n.id n.slug (length xs) has in
      Any-upsert_new (HasPrice id store) (λ x. str_eq x.key key) (merge_into n) new (Marked b) xs
        (λ x same h. (
          h.own ∙ ap some ((eq_iff x.key key).0 same) ∙ sym own ∙ e,
          merge_prices-new store n.prices x.prices a,
        ))
        (e, merge_prices-new store n.prices [] a) hs

  merge_items-keep :
      (is : List RawItem) (xs : List Item)
      → Any (HasPrice id store) xs
      → Any (HasPrice id store) (merge_items b is xs)
  unfolding merge_items
  merge_items-keep [] xs a = a
  merge_items-keep (i ∷ is) xs a =
      merge_items-keep is _ (merge_normalised-keep (normalise_item b i) xs a)

  merge_items-new :
      (is : List RawItem) (xs : List Item)
      → All (λ i. HasId i.item_id) is
      → All (Marked b) xs
      → Any (IsSold id store) is
      → Any (HasPrice id store) (merge_items b is xs)
  unfolding merge_items
  merge_items-new [] xs h ms a = absurd a
  merge_items-new (i ∷ is) xs (h, hs) ms (inl sold) = merge_items-keep is _ (
      merge_normalised-new (normalise_item b i) xs (normalise_item-MarkedNew b i h) ms
        (normalise_item-Adds i sold))
  merge_items-new (i ∷ is) xs (h, hs) ms (inr a) =
      merge_items-new is _ hs
        (merge_normalised-Marked b (normalise_item b i) xs (normalise_item-MarkedNew b i h) ms) a

  merge_category-keep :
      (c : RawCategory) (ts : List MergedCategory)
      → Any (Lists id store) ts
      → Any (Lists id store) (merge_category b c ts)
  unfolding merge_category
  merge_category-keep c ts a =
      let key = key_of b c.slug c.id (length ts) in
      let new : MergedCategory = record {
        key = key;
        id = c.id;
        name = c.name;
        slug = c.slug;
        items = [];
      } in
      let change : MergedCategory → MergedCategory =
        λ t. record t { items = merge_items b c.items t.items } in
      Any-upsert_keep (Lists id store) (λ t. str_eq t.key key) change new ts
        (λ t same h. merge_items-keep c.items t.items h) a

  merge_category-new :
      (c : RawCategory) (ts : List MergedCategory)
      → HasIds b c
      → All (Merged b) ts
      → Any (IsSold id store) c.items
      → Any (Lists id store) (merge_category b c ts)
  unfolding merge_category
  merge_category-new c ts h ms a =
      let key = key_of b c.slug c.id (length ts) in
      let new : MergedCategory = record {
        key = key;
        id = c.id;
        name = c.name;
        slug = c.slug;
        items = [];
      } in
      let change : MergedCategory → MergedCategory =
        λ t. record t { items = merge_items b c.items t.items } in
      Any-upsert_new (Lists id store) (λ t. str_eq t.key key) change new (Merged b) ts
        (λ t same m. merge_items-new c.items t.items h m a) (merge_items-new c.items [] h tt a) ms

  merge_payload-keep :
      (cs : List RawCategory) (ts : List MergedCategory)
      → Any (Lists id store) ts
      → Any (Lists id store) (merge_payload b cs ts)
  unfolding merge_payload
  merge_payload-keep [] ts a = a
  merge_payload-keep (c ∷ cs) ts a = elim (Bool-cases c.is_hidden) [
    | inl hidden ↦ rw hidden (merge_payload-keep cs ts a)
    | inr shown ↦ rw shown (merge_payload-keep cs _ (merge_category-keep c ts a))
  ]

  merge_payload-new :
      (cs : List RawCategory) (ts : List MergedCategory)
      → All (HasIds b) cs
      → All (Merged b) ts
      → Any (Sells id store) cs
      → Any (Lists id store) (merge_payload b cs ts)
  unfolding merge_payload
  merge_payload-new [] ts h ms a = absurd a
  merge_payload-new (c ∷ cs) ts (h, hs) ms (inl (shown, a)) =
      rw shown (merge_payload-keep cs _ (merge_category-new c ts h ms a))
  merge_payload-new (c ∷ cs) ts (h, hs) ms (inr a) = elim (Bool-cases c.is_hidden) [
    | inl hidden ↦ rw hidden (merge_payload-new cs ts hs ms a)
    | inr shown ↦ rw shown (merge_payload-new cs _ hs (merge_category-Merged b c ts h ms) a)
  ]

  merge_payloads-keep :
      (ps : List (List RawCategory)) (ts : List MergedCategory)
      → Any (Lists id store) ts
      → Any (Lists id store) (merge_payloads b ps ts)
  unfolding merge_payloads
  merge_payloads-keep [] ts a = a
  merge_payloads-keep (p ∷ ps) ts a = merge_payloads-keep ps _ (merge_payload-keep p ts a)

  pub merge_payloads-new :
      (ps : List (List RawCategory)) (ts : List MergedCategory)
      → All (All (HasIds b)) ps
      → All (Merged b) ts
      → Any (Any (Sells id store)) ps
      → Any (Lists id store) (merge_payloads b ps ts)
  unfolding merge_payloads
  merge_payloads-new [] ts h ms a = absurd a
  merge_payloads-new (p ∷ ps) ts (h, hs) ms (inl a) =
      merge_payloads-keep ps _ (merge_payload-new p ts h ms a)
  merge_payloads-new (p ∷ ps) ts (h, hs) ms (inr a) =
      merge_payloads-new ps _ hs (merge_payload-Merged b p ts h ms) a

  pub output-Lists : (t : MergedCategory) → Lists id store t → Lists id store (output_category t)
  output-Lists t =
      Any-map (HasPrice id store) (HasPrice id store) output_item t.items
        (λ x h. (h.0, sort_prices-Any store x.prices h.1))
