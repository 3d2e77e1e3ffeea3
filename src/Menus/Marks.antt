-- ===== src/Menus/Marks.antt =====
-- The marks of the prices while menus are merged: app/services/ikko_myresto_menu.py and the stop lists.
use text.Mathlib.Text.{◌==◌ as str_eq}
use text.Mathlib.TextEquality.{eq_iff}
use sardoba_app_server.Prelude.{
  arith, Mem, mem_head, mem_tail, ◌↔◌, ◌&&◌, ℕ, ◌≡◌, refl, String, Bool, true, false, Option, none,
  some, List, [], ◌∷◌, map, inl, inr, All, Bool-cases, ◌==◌, leb, length, ap, sym, ◌∙◌, subst,
}
use sardoba_app_server.Prelude.Int.{ℤ}
use sardoba_app_server.Menus.{
  RawPrice, RawItem, RawCategory, ItemSize, Price, Item, MergedCategory, Branches, Normalised,
  in_stoplists, has_text, upsert, put_price, put_given, priced, is_stopped, convert_prices,
  default_size, with_size, with_prices, normalise_item, key_of, merge_prices, merge_into,
  merge_normalised, merge_items, merge_category, merge_payload, merge_payloads, insert_sorted,
  sort_prices,
}

pub All-upsert {ℓ κ} :
    {A : Type ℓ} (P : A → Type κ) (p : A → Bool) (f : A → A) (new : A) (xs : List A)
    → ((x : A) → p x ≡ true → P x → P (f x))
    → P (f new)
    → All P xs
    → All P (upsert p f new xs)
unfolding upsert
All-upsert P p f new [] h n hs = (n, tt)
All-upsert P p f new (x ∷ xs) h n (hx, hs) = elim (Bool-cases (p x)) [
  | inl here ↦ rw here (h x here hx, hs)
  | inr other ↦ rw other (hx, All-upsert P p f new xs h n hs)
]

pub All-map {ℓ κ} :
    {A : Type ℓ} (P Q : A → Type κ) (f : A → A) (xs : List A)
    → ((x : A) → P x → Q (f x))
    → All P xs
    → All Q (map f xs)
All-map P Q f [] h hs = tt
All-map P Q f (x ∷ xs) h hs = (h x hs.0, All-map P Q f xs h hs.1)

-- A text that is there and not empty.
abbrev pub HasId : Option String → Type 0
HasId none = ⊥
HasId (some t) = str_eq t "" ≡ false

has_text-Mem : (t : String) (us : List String) → (has_text t us ≡ true) ↔ Mem t us
unfolding has_text
has_text-Mem t us = (forth us, back us)
  where
    forth : (us : List String) → has_text t us ≡ true → Mem t us
    forth [] h = cc
    forth (u ∷ us) h = elim (Bool-cases (str_eq u t)) [
      | inl e ↦ mem_head (sym ((eq_iff u t).0 e))
      | inr e ↦ mem_tail (forth us (rw e at h))
    ]

    back : (us : List String) → Mem t us → has_text t us ≡ true
    back [] m = elim m [ ]
    back (u ∷ us) (mem_head e) = rw ((eq_iff u t).1 (sym e)) refl
    back (u ∷ us) (mem_tail m) = ground (arith, back us m)

-- A stop list of the store names the item with that id.
abbrev pub IsNamed : Option String → ℕ → List (ℕ × List String) → Type 0
IsNamed none store lists = ⊥
IsNamed (some id) store lists = (ids : List String) × Mem (store, ids) lists × Mem id ids

in_stoplists-IsNamed :
    (id : String) (store : ℕ) (lists : List (ℕ × List String))
    → (in_stoplists id store lists ≡ true) ↔ IsNamed (some id) store lists
unfolding in_stoplists
in_stoplists-IsNamed id store lists = (forth lists, back lists)
  where
    forth :
        (lists : List (ℕ × List String))
        → in_stoplists id store lists ≡ true
        → IsNamed (some id) store lists
    forth [] h = cc
    forth ((s, ids) ∷ more) h = elim (Bool-cases (s == store && has_text id ids)) [
      | inl e ↦
          let same : store ≡ s = ground arith in
          let named : has_text id ids ≡ true = ground arith in
          (ids, mem_head (ap (λ x. (x, ids)) same), (has_text-Mem id ids).0 named)
      | inr e ↦ let (js, place, m) = forth more (rw e at h) in (js, mem_tail place, m)
    ]

    back :
        (lists : List (ℕ × List String))
        → IsNamed (some id) store lists
        → in_stoplists id store lists ≡ true
    back [] (js, place, m) = elim place [ ]
    back ((s, ids) ∷ more) (js, mem_head e, m) =
        let same : s ≡ store = sym (ap (λ x. x.0) e) in
        let named : has_text id ids ≡ true =
          (has_text-Mem id ids).1 (subst (Mem id) (ap (λ x. x.1) e) m) in
        rw (same, named) (ground arith)
    back ((s, ids) ∷ more) (js, mem_tail place, m) = ground (arith, back more (js, place, m))

module _ (b : Branches) where
  -- The mark that the code computes.
  abbrev pub IsMarked : Option String → Price → Type 0
  IsMarked id p = p.disabled ≡ is_stopped b id p.store_id

  module _ (id : Option String) where
    put_price-IsMarked :
        (p : Price) (ps : List Price)
        → IsMarked id p
        → All (IsMarked id) ps
        → All (IsMarked id) (put_price p ps)
    unfolding put_price
    put_price-IsMarked p ps h hs =
        All-upsert (IsMarked id) (λ q. q.store_id == p.store_id) (λ _. p) p ps (λ x e hx. h) h hs

    put_given-IsMarked :
        (store : Option ℕ) (amount : Option ℤ) (ps : List Price)
        → All (IsMarked id) ps
        → All (IsMarked id) (put_given (priced b id store amount) ps)
    put_given-IsMarked none amount ps hs = hs
    put_given-IsMarked (some s) none ps hs = hs
    put_given-IsMarked (some s) (some a) ps hs = put_price-IsMarked _ ps refl hs

    convert_prices-IsMarked :
        (rs : List RawPrice) (ps : List Price)
        → All (IsMarked id) ps
        → All (IsMarked id) (convert_prices b id rs ps)
    unfolding convert_prices
    convert_prices-IsMarked [] ps hs = hs
    convert_prices-IsMarked (r ∷ rs) ps hs =
        convert_prices-IsMarked rs _ (put_given-IsMarked r.store_id r.price ps hs)

    merge_prices-IsMarked :
        (ns ps : List Price)
        → All (IsMarked id) ns
        → All (IsMarked id) ps
        → All (IsMarked id) (merge_prices ns ps)
    unfolding merge_prices
    merge_prices-IsMarked [] ps ns hs = hs
    merge_prices-IsMarked (n ∷ ns) ps (hn, hns) hs =
        merge_prices-IsMarked ns _ hns (put_price-IsMarked n ps hn hs)

    insert_sorted-IsMarked :
        (p : Price) (ps : List Price)
        → IsMarked id p
        → All (IsMarked id) ps
        → All (IsMarked id) (insert_sorted p ps)
    unfolding insert_sorted
    insert_sorted-IsMarked p [] h hs = (h, tt)
    insert_sorted-IsMarked p (q ∷ qs) h (hq, hs) = elim (Bool-cases (leb p.store_id q.store_id)) [
      | inl before ↦ rw before (h, (hq, hs))
      | inr after ↦ rw after (hq, insert_sorted-IsMarked p qs h hs)
    ]

    pub sort_prices-IsMarked :
        (ps : List Price) → All (IsMarked id) ps → All (IsMarked id) (sort_prices ps)
    unfolding sort_prices
    sort_prices-IsMarked [] hs = tt
    sort_prices-IsMarked (p ∷ ps) hs =
        insert_sorted-IsMarked p _ hs.0 (sort_prices-IsMarked ps hs.1)

  -- An item whose key is its id, with the marks of its stores.
  pub record Marked (x : Item) : Type 0 where
    pub named : HasId x.id
    pub own : x.id ≡ some x.key
    pub marks : All (IsMarked x.id) x.prices

  abbrev pub MarkedNew : Option Normalised → Type 0
  MarkedNew none = Unit
  MarkedNew (some n) = HasId n.id × All (IsMarked n.id) n.prices

  with_prices-MarkedNew :
      (i : RawItem) (s : ItemSize) (ps : List Price)
      → HasId i.item_id
      → All (IsMarked i.item_id) ps
      → MarkedNew (with_prices i s ps)
  with_prices-MarkedNew i s [] h hs = tt
  with_prices-MarkedNew i s (p ∷ ps) h hs = (h, hs)

  with_size-MarkedNew :
      (i : RawItem) (s : Option ItemSize) → HasId i.item_id → MarkedNew (with_size b i s)
  with_size-MarkedNew i none h = tt
  with_size-MarkedNew i (some s) h =
      with_prices-MarkedNew i s _ h (convert_prices-IsMarked i.item_id s.prices [] tt)

  pub normalise_item-MarkedNew : (i : RawItem) → HasId i.item_id → MarkedNew (normalise_item b i)
  unfolding normalise_item
  normalise_item-MarkedNew i h = elim (Bool-cases i.is_hidden) [
    | inl hidden ↦ rw hidden tt
    | inr shown ↦ rw shown (with_size-MarkedNew i (default_size i.item_sizes) h)
  ]

  pub key_of-id : (id slug : Option String) (n : ℕ) → HasId id → id ≡ some (key_of b id slug n)
  key_of-id none slug n h = absurd h
  key_of-id (some t) slug n h = simp (key_of, h) refl

  merge_into-Marked :
      (n : Normalised) (key : String) (x : Item)
      → n.id ≡ some key
      → All (IsMarked n.id) n.prices
      → str_eq x.key key ≡ true
      → Marked x
      → Marked (merge_into n x)
  merge_into-Marked n key x e hn same h =
      let ids : n.id ≡ x.id = e ∙ (ap some (sym ((eq_iff x.key key).0 same)) ∙ sym h.own) in
      record {
        named = h.named;
        own = h.own;
        marks =
            merge_prices-IsMarked x.id n.prices x.prices
              (subst (λ id. All (IsMarked id) n.prices) ids hn) h.marks;
      }

  pub merge_normalised-Marked :
      (n : Option Normalised) (xs : List Item)
      → MarkedNew n
      → All Marked xs
      → All Marked (merge_normalised b n xs)
  merge_normalised-Marked none xs h hs = hs
  merge_normalised-Marked (some n) xs (has, hn) hs =
      let key = key_of b n.id n.slug (length xs) in
      let e = key_of-id n.id n.slug (length xs) has in
      let new : Item = record { key = key; id = n.id; name = n.name; prices = []; images = [] } in
      All-upsert Marked (λ x. str_eq x.key key) (merge_into n) new xs
        (λ x same. merge_into-Marked n key x e hn same)
        (record { named = has; own = e; marks = merge_prices-IsMarked n.id n.prices [] hn tt }) hs

  pub merge_items-Marked :
      (is : List RawItem) (xs : List Item)
      → All (λ i. HasId i.item_id) is
      → All Marked xs
      → All Marked (merge_items b is xs)
  unfolding merge_items
  merge_items-Marked [] xs h hs = hs
  merge_items-Marked (i ∷ is) xs (h, hr) hs =
      merge_items-Marked is _ hr
        (merge_normalised-Marked (normalise_item b i) xs (normalise_item-MarkedNew i h) hs)

  -- Every item of the category has an id.
  abbrev pub HasIds : RawCategory → Type 0
  HasIds c = All (λ i. HasId i.item_id) c.items

  abbrev pub Merged : MergedCategory → Type 0
  Merged c = All Marked c.items

  pub merge_category-Merged :
      (c : RawCategory) (ts : List MergedCategory)
      → HasIds c
      → All Merged ts
      → All Merged (merge_category b c ts)
  unfolding merge_category
  merge_category-Merged c ts h hs =
      let key = key_of b c.slug c.id (length ts) in
      let new : MergedCategory = record {
        key = key;
        id = c.id;
        name = c.name;
        slug = c.slug;
        items = [];
      } in
      All-upsert Merged (λ t. str_eq t.key key)
        (λ t. record t { items = merge_items b c.items t.items }) new ts
        (λ t e ht. merge_items-Marked c.items t.items h ht) (merge_items-Marked c.items [] h tt) hs

  pub merge_payload-Merged :
      (cs : List RawCategory) (ts : List MergedCategory)
      → All HasIds cs
      → All Merged ts
      → All Merged (merge_payload b cs ts)
  unfolding merge_payload
  merge_payload-Merged [] ts h hs = hs
  merge_payload-Merged (c ∷ cs) ts (h, hr) hs = elim (Bool-cases c.is_hidden) [
    | inl hidden ↦ rw hidden (merge_payload-Merged cs ts hr hs)
    | inr shown ↦ rw shown (merge_payload-Merged cs _ hr (merge_category-Merged c ts h hs))
  ]

  pub merge_payloads-Merged :
      (ps : List (List RawCategory)) (ts : List MergedCategory)
      → All (All HasIds) ps
      → All Merged ts
      → All Merged (merge_payloads b ps ts)
  unfolding merge_payloads
  merge_payloads-Merged [] ts h hs = hs
  merge_payloads-Merged (p ∷ ps) ts (h, hr) hs =
      merge_payloads-Merged ps _ hr (merge_payload-Merged p ts h hs)

  -- The price is disabled if, and only if, the stop list of its store names the item.
  abbrev pub IsTrueMark : Option String → Price → Type 0
  IsTrueMark id p = (p.disabled ≡ true) ↔ IsNamed id p.store_id b.stoplists

  IsMarked-true : (id : Option String) (p : Price) → HasId id → IsMarked id p → IsTrueMark id p
  unfolding is_stopped
  IsMarked-true none p h e = absurd h
  IsMarked-true (some id) p h e =
      let same : p.disabled ≡ in_stoplists id p.store_id b.stoplists = rw h at e in
      rw same (in_stoplists-IsNamed id p.store_id b.stoplists)

  pub IsMarked-All :
      (id : Option String) (ps : List Price)
      → HasId id
      → All (IsMarked id) ps
      → All (IsTrueMark id) ps
  IsMarked-All id [] h hs = tt
  IsMarked-All id (p ∷ ps) h (hp, hs) = (IsMarked-true id p h hp, IsMarked-All id ps h hs)

  -- The prices of every item of the category are marked.
  abbrev pub IsMarkedCategory : MergedCategory → Type 0
  IsMarkedCategory c = All (λ x. All (IsTrueMark x.id) x.prices) c.items
