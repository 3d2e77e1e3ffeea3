-- ===== src/Menus.antt =====
-- Merging the menus of the branches: app/services/ikko_myresto_menu.py from the parsed payloads to the
-- merged menu. The names of the stores and the decimal text of a number are arguments; amounts are whole
-- numbers. Fetching and its caches are left out.
pub mod Marks
pub mod Listed
pub mod Stopped
mod Tests
use text.Mathlib.Text.{◌==◌ as str_eq}
use sardoba_app_server.Prelude.{
  ℕ, String, Bool, true, false, not, ◌&&◌, ◌||◌, Option, none, some, List, [], ◌∷◌, ◌++◌, map, ◌==◌,
  leb, if◌then◌else◌, first, length,
}
use sardoba_app_server.Prelude.Int.{ℤ}
use sardoba_app_server.Otp.{truthy}
use sardoba_app_server.Cards.{or_text}

pub record RawPrice : Type 0 where
  pub store_id : Option ℕ
  pub price : Option ℤ

-- A text, or the texts among the values of an object.
pub data Image : Type 0 where
  link : String → Image
  links : List String → Image

pub record ItemSize : Type 0 where
  pub is_default : Bool
  pub prices : List RawPrice
  pub button_image : Option Image

pub record RawItem : Type 0 where
  pub item_id : Option String
  pub name : Option String
  pub slug : Option String
  pub is_hidden : Bool
  pub item_sizes : List ItemSize
  pub button_image : Option Image

pub record RawCategory : Type 0 where
  pub id : Option String
  pub name : Option String
  pub slug : Option String
  pub is_hidden : Bool
  pub items : List RawItem

pub record Price : Type 0 where
  pub store_id : ℕ
  pub store_name : String
  pub price : ℤ
  pub disabled : Bool

-- An item or a category with its key in the dict.
pub record Item : Type 0 where
  pub key : String
  pub id : Option String
  pub name : Option String
  pub prices : List Price
  pub images : List String

pub record MergedCategory : Type 0 where
  pub key : String
  pub id : Option String
  pub name : Option String
  pub slug : Option String
  pub items : List Item

-- `stoplists` has the ids that each store is out of.
pub record Branches : Type 0 where
  pub stoplists : List (ℕ × List String)
  pub store_name : ℕ → String
  pub show : ℕ → String

unfoldable pub has_text : String → List String → Bool
has_text t [] = false
has_text t (u ∷ us) = str_eq u t || has_text t us

-- `_unique`, after the values that were seen.
unfoldable pub unique : List String → List String → List String
unfolding has_text
unique seen [] = []
unique seen (t ∷ ts) =
    let rest = unique (t ∷ seen) ts in
    let skipped = unique seen ts in
    if not (str_eq t "") && not (has_text t seen) then t ∷ rest else skipped

unfoldable pub extract_images : Option Image → List String
unfolding unique
extract_images none = []
extract_images (some (link t)) = if str_eq t "" then [] else t ∷ []
extract_images (some (links ts)) = unique [] ts

-- `aggregate[key]`, made if it is missing, and changed.
unfoldable pub upsert {ℓ} : {A : Type ℓ} → (A → Bool) → (A → A) → A → List A → List A
upsert p f new [] = f new ∷ []
upsert p f new (x ∷ xs) = let rest = upsert p f new xs in if p x then f x ∷ xs else x ∷ rest

unfoldable pub put_price : Price → List Price → List Price
unfolding upsert
put_price p = upsert (λ q. q.store_id == p.store_id) (λ _. p) p

unfoldable pub in_stoplists : String → ℕ → List (ℕ × List String) → Bool
unfolding has_text
in_stoplists id store [] = false
in_stoplists id store ((s, ids) ∷ more) =
    (s == store && has_text id ids) || in_stoplists id store more

unfoldable pub is_stopped : Branches → Option String → ℕ → Bool
unfolding in_stoplists
is_stopped b none store = false
is_stopped b (some id) store = not (str_eq id "") && in_stoplists id store b.stoplists

abbrev priced : Branches → Option String → Option ℕ → Option ℤ → Option Price
priced b item_id (some store) (some amount) = some (record {
  store_id = store;
  store_name = b.store_name store;
  price = amount;
  disabled = is_stopped b item_id store;
})
priced b item_id _ _ = none

abbrev pub put_given : Option Price → List Price → List Price
put_given none ps = ps
put_given (some p) ps = put_price p ps

-- `result` is the dict so far.
unfoldable pub convert_prices : Branches → Option String → List RawPrice → List Price → List Price
unfolding is_stopped put_price
convert_prices b item_id [] result = result
convert_prices b item_id (r ∷ rs) result =
    convert_prices b item_id rs (put_given (priced b item_id r.store_id r.price) result)

unfoldable pub default_size : List ItemSize → Option ItemSize
default_size [] = none
default_size (s ∷ ss) = elim (first (λ t. t.is_default) (s ∷ ss)) [
  | none ↦ some s
  | some t ↦ some t
]

abbrev or_images : List String → List String → List String
or_images [] js = js
or_images (i ∷ is) js = i ∷ is

-- What an item adds: none if it is hidden or has no price.
pub record Normalised : Type 0 where
  pub id : Option String
  pub name : Option String
  pub slug : Option String
  pub prices : List Price
  pub images : List String

abbrev with_prices : RawItem → ItemSize → List Price → Option Normalised
with_prices i s [] = none
with_prices i s (p ∷ ps) = some (record {
  id = i.item_id;
  name = i.name;
  slug = i.slug;
  prices = p ∷ ps;
  images = or_images (extract_images s.button_image) (extract_images i.button_image);
})

abbrev with_size : Branches → RawItem → Option ItemSize → Option Normalised
with_size b i none = none
with_size b i (some s) = with_prices i s (convert_prices b i.item_id s.prices [])

unfoldable pub normalise_item : Branches → RawItem → Option Normalised
unfolding default_size convert_prices extract_images
normalise_item b i = if i.is_hidden then none else with_size b i (default_size i.item_sizes)

-- a or b or str(n)
abbrev pub key_of : Branches → Option String → Option String → ℕ → String
key_of b a c n = elim (or_text a c) [
  | none ↦ b.show n
  | some t ↦ if str_eq t "" then b.show n else t
]

unfoldable pub merge_prices : List Price → List Price → List Price
unfolding put_price
merge_prices [] ps = ps
merge_prices (n ∷ ns) ps = merge_prices ns (put_price n ps)

unfoldable pub merge_images : List String → List String → List String
unfolding has_text
merge_images [] js = js
merge_images (i ∷ is) js = merge_images is (if has_text i js then js else js ++ i ∷ [])

abbrev pub merge_into : Normalised → Item → Item
merge_into n x = record x {
  prices = merge_prices n.prices x.prices;
  images = merge_images n.images x.images;
}

abbrev pub merge_normalised : Branches → Option Normalised → List Item → List Item
merge_normalised b none items = items
merge_normalised b (some n) items =
    let key = key_of b n.id n.slug (length items) in
    upsert (λ x. str_eq x.key key) (merge_into n)
      (record { key = key; id = n.id; name = n.name; prices = []; images = [] }) items

unfoldable pub merge_items : Branches → List RawItem → List Item → List Item
unfolding normalise_item upsert merge_prices merge_images
merge_items b [] items = items
merge_items b (i ∷ is) items = merge_items b is (merge_normalised b (normalise_item b i) items)

unfoldable pub merge_category : Branches → RawCategory → List MergedCategory → List MergedCategory
unfolding upsert merge_items
merge_category b c aggregate =
    let key = key_of b c.slug c.id (length aggregate) in
    upsert (λ t. str_eq t.key key) (λ t. record t { items = merge_items b c.items t.items })
      (record { key = key; id = c.id; name = c.name; slug = c.slug; items = [] }) aggregate

unfoldable pub merge_payload :
    Branches → List RawCategory → List MergedCategory → List MergedCategory
unfolding merge_category
merge_payload b [] aggregate = aggregate
merge_payload b (c ∷ cs) aggregate =
    merge_payload b cs (if c.is_hidden then aggregate else merge_category b c aggregate)

unfoldable pub merge_payloads :
    Branches → List (List RawCategory) → List MergedCategory → List MergedCategory
unfolding merge_payload
merge_payloads b [] aggregate = aggregate
merge_payloads b (p ∷ ps) aggregate = merge_payloads b ps (merge_payload b p aggregate)

-- sorted(…, key=storeId): the stores of a dict differ.
unfoldable pub insert_sorted : Price → List Price → List Price
insert_sorted p [] = p ∷ []
insert_sorted p (q ∷ qs) =
    let rest = insert_sorted p qs in if leb p.store_id q.store_id then p ∷ q ∷ qs else q ∷ rest

unfoldable pub sort_prices : List Price → List Price
unfolding insert_sorted
sort_prices [] = []
sort_prices (p ∷ ps) = insert_sorted p (sort_prices ps)

abbrev pub output_item : Item → Item
output_item x = record x { prices = sort_prices x.prices }

abbrev pub output_category : MergedCategory → MergedCategory
output_category c = record c { items = map output_item c.items }

unfoldable pub merge_menus : Branches → List (List RawCategory) → List MergedCategory
unfolding merge_payloads sort_prices
merge_menus b payloads = map output_category (merge_payloads b payloads [])
