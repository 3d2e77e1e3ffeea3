-- ===== src/Catalog/Menu.antt =====
-- Taking the menu over into the catalog: `sync_from_iiko` of app/services/catalog_service.py. Menus that
-- name a category twice are outside the model; prices stand in hundredths.
use text.Mathlib.Text.{◌==◌ as str_eq}
use sardoba_app_server.Prelude.{
  ℕ, ◌+◌, String, Bool, false, not, ◌||◌, Option, none, some, List, [], ◌∷◌, ◌==◌, if◌then◌else◌,
  first, select,
}
use sardoba_app_server.Prelude.Int.{ℤ, eqb_ℤ}
use sardoba_app_server.Text.{strip}
use sardoba_app_server.Failure.{Outcome, authorization_error, data_error}
use sardoba_app_server.Models.{Staff, Category, Product, Database}
use sardoba_app_server.SyncJobs.{holds_text}
use sardoba_app_server.Cashback.{is_manager}
use sardoba_app_server.Cards.{text_or_empty}
use sardoba_app_server.Service.{Service, ◌>>=◌, ◌>>◌, pure, query, write, unless, commit}
use sardoba_app_server.Catalog.Lists.{Shop, in_category, invalidate}
use sardoba_app_server.Catalog.{
  insert_category, insert_product, put_product, remove_product, fits_price, changing,
}

pub record MenuItem : Type 0 where
  pub name : Option String
  pub prices : List (Option ℤ)
  pub images : List (Option String)

pub record MenuCategory : Type 0 where
  pub name : Option String
  pub items : List MenuItem

pub record SyncCounts : Type 0 where
  pub categories_created : ℕ
  pub products_created : ℕ
  pub products_updated : ℕ
  pub products_removed : ℕ

-- The counts, and the ids of the products seen in the category.
pub record Progress : Type 0 where
  pub counts : SyncCounts
  pub seen : List ℕ

unfoldable pub first_price : List (Option ℤ) → Option ℤ
first_price [] = none
first_price (none ∷ ps) = first_price ps
first_price (some p ∷ ps) = some p

unfoldable pub first_image : List (Option String) → Option String
first_image [] = none
first_image (i ∷ is) = i

-- `{prod.name: prod …}.get(name)`: the last of that name.
unfoldable pub last_named : String → List Product → Option Product
last_named name [] = none
last_named name (p ∷ ps) = elim (last_named name ps) [
  | some q ↦ some q
  | none ↦ if str_eq p.name name then some p else none
]

unfoldable pub has_seen : List ℕ → ℕ → Bool
has_seen [] id = false
has_seen (i ∷ is) id = i == id || has_seen is id

abbrev new_image : Option String → Option String → Bool
new_image none old = false
new_image (some i) old = not (holds_text old i)

unfoldable pub is_changed : ℕ → ℤ → Option String → Product → Bool
unfolding in_category
is_changed category_id price image p =
    not (eqb_ℤ p.price price) || (new_image image p.image_url || not (in_category category_id p))

unfoldable pub taken_over : ℕ → ℤ → Option String → Product → Product
taken_over category_id price image p = record p {
  price = price;
  image_url = elim image [ none ↦ p.image_url | some i ↦ some i ];
  category_id = category_id;
}

abbrev add_created : ℕ → Progress → Progress
add_created id g = record g {
  counts = record g.counts { products_created = g.counts.products_created + 1 };
  seen = id ∷ g.seen;
}

abbrev add_updated : Bool → ℕ → Progress → Progress
add_updated changed id g = record g {
  counts = record g.counts {
    products_updated = g.counts.products_updated + (if changed then 1 else 0);
  };
  seen = id ∷ g.seen;
}

-- The row as it is now; an earlier item of that name may have changed it.
abbrev current : Product → Database → Product
current p db = elim (first (λ q. q.id == p.id) db.products.rows) [ none ↦ p | some q ↦ q ]

unfoldable pub take_over :
    ℕ → String → ℤ → Option String → Option Product → Progress → Service Progress
unfolding insert_product is_changed taken_over put_product fits_price
take_over category_id name price image none g = do
  p ← insert_product name category_id price image
  pure (add_created p.id g)
take_over category_id name price image (some found) g = do
  p ← query (current found)
  unless (fits_price price) data_error
  write (put_product (taken_over category_id price image p))
  pure (add_updated (is_changed category_id price image p) p.id g)

unfoldable pub sync_priced :
    ℕ → List Product → String → Option ℤ → List (Option String) → Progress → Service Progress
unfolding take_over last_named first_image
sync_priced category_id before name none images g = pure g
sync_priced category_id before name (some price) images g =
    take_over category_id name price (first_image images) (last_named name before) g

-- `(name or "").strip()`
abbrev menu_name : Option String → String
menu_name name = strip (text_or_empty name)

unfoldable pub sync_items : ℕ → List Product → List MenuItem → Progress → Service Progress
unfolding strip sync_priced first_price
sync_items category_id before [] g = pure g
sync_items category_id before (i ∷ is) g = do
  g' ←
      (if str_eq (menu_name i.name) ""
        then pure g
        else sync_priced category_id before (menu_name i.name) (first_price i.prices) i.images g)
  sync_items category_id before is g'

abbrev add_removed : SyncCounts → SyncCounts
add_removed c = record c { products_removed = c.products_removed + 1 }

-- The products that the category had and the menu does not have.
unfoldable pub remove_unseen : List ℕ → List Product → SyncCounts → Service SyncCounts
unfolding has_seen remove_product
remove_unseen seen [] c = pure c
remove_unseen seen (p ∷ ps) c =
    if has_seen seen p.id
    then remove_unseen seen ps c
    else (do write (remove_product p.id); remove_unseen seen ps (add_removed c))

abbrev add_category : SyncCounts → SyncCounts
add_category c = record c { categories_created = c.categories_created + 1 }

unfoldable pub find_or_create : String → Option Category → SyncCounts → Service (ℕ × SyncCounts)
unfolding insert_category
find_or_create name (some c) counts = pure (c.id, counts)
find_or_create name none counts = do c ← insert_category name none; pure (c.id, add_category counts)

-- `existing` and `products` are the rows from before the synchronisation.
unfoldable pub sync_category :
    List Category → List Product → MenuCategory → SyncCounts → Service SyncCounts
unfolding strip find_or_create in_category sync_items remove_unseen
sync_category existing products m counts = if str_eq (menu_name m.name) "" then pure counts else (do
  (id, counts') ←
      find_or_create (menu_name m.name) (first (λ c. str_eq c.name (menu_name m.name)) existing)
        counts
  g ←
      sync_items id (select (in_category id) products) m.items
        (record { counts = counts'; seen = [] })
  remove_unseen g.seen (select (in_category id) products) g.counts)

unfoldable pub sync_menu :
    List Category → List Product → List MenuCategory → SyncCounts → Service SyncCounts
unfolding sync_category
sync_menu existing products [] counts = pure counts
sync_menu existing products (m ∷ ms) counts = do
  counts' ← sync_category existing products m counts
  sync_menu existing products ms counts'

unfoldable pub sync_from_iiko : List MenuCategory → Staff → Shop → Outcome SyncCounts × Shop
unfolding sync_menu invalidate
sync_from_iiko menu actor = changing invalidate (do
  unless (is_manager actor.role) authorization_error
  existing ← query (λ db. db.categories.rows)
  products ← query (λ db. db.products.rows)
  counts ← sync_menu existing products menu (record {
    categories_created = 0;
    products_created = 0;
    products_updated = 0;
    products_removed = 0;
  })
  commit
  pure counts)
