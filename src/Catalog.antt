-- ===== src/Catalog.antt =====
-- The catalog of categories and products with its cached lists: app/services/catalog_service.py. The menu,
-- the order of the database's texts and the decimal text of an id are arguments. A price of a list is the
-- column's value.
pub mod Lists
pub mod Menu
pub mod Fresh
mod Tests
use text.Mathlib.Text.{◌==◌ as str_eq}
use sardoba_app_server.Prelude.{
  ℕ, ◌^◌, String, Bool, true, false, not, ◌&&◌, ◌||◌, Option, none, some, List, [], ◌∷◌, map, ◌==◌,
  ltb, if◌then◌else◌, first, count, select, update_rows, is_some,
}
use sardoba_app_server.Prelude.Int.{ℤ, magnitude}
use sardoba_app_server.Prelude.Dict.{Dict}
use sardoba_app_server.Text.{join}
use sardoba_app_server.Failure.{
  Outcome, ok, raised, or_raise, not_found_error, authorization_error, integrity_error, data_error,
}
use sardoba_app_server.Models.{Staff, Category, Product, Table, Database, add_row}
use sardoba_app_server.Cashback.{is_manager}
use sardoba_app_server.Cards.{or_text}
use sardoba_app_server.Cache.{InMemoryEntry, clear_namespace, cached}
use sardoba_app_server.Service.{
  Session, Service, ◌>>=◌, ◌>>◌, pure, lift, query, write, unless, commit,
}
use sardoba_app_server.Catalog.Lists.{
  Listing, Shop, categories, in_category, invalidate, invalidate_products, products,
}

-- The changes of the database, and the invalidation after them, which an exception skips.
abbrev pub invalidated :
    {A : Type 0}
    → (Dict (InMemoryEntry Listing) → Dict (InMemoryEntry Listing))
    → Outcome A
    → Dict (InMemoryEntry Listing)
    → Dict (InMemoryEntry Listing)
invalidated clear (ok a) d = clear d
invalidated clear (raised e) d = d

abbrev pub changing :
    {A : Type 0}
    → (Dict (InMemoryEntry Listing) → Dict (InMemoryEntry Listing))
    → Service A
    → Shop
    → Outcome A × Shop
changing clear m s =
    let (r, session) = m s.session in
    (r, record { session = session; cache = invalidated clear r s.cache })

abbrev ensure_manager : Staff → Service (Unit {0})
ensure_manager actor = unless (is_manager actor.role) authorization_error

unfoldable pub get_category : ℕ → Service Category
get_category id = do
  found ← query (λ db. first (λ c. c.id == id) db.categories.rows)
  lift (or_raise found (not_found_error "Category not found"))

unfoldable pub get_product : ℕ → Service Product
get_product id = do
  found ← query (λ db. first (λ p. p.id == id) db.products.rows)
  lift (or_raise found (not_found_error "Product not found"))

-- Another category has the name.
unfoldable pub name_taken : ℕ → String → Database → Bool
name_taken id name db =
    not (count (λ c. str_eq c.name name && not (c.id == id)) db.categories.rows == 0)

-- DECIMAL(10, 2)
unfoldable pub fits_price : ℤ → Bool
fits_price a = ltb (magnitude a) (10 ^ 10)

unfoldable pub category_row : String → Option String → ℕ → Category
category_row name image_url id = record { id = id; name = name; image_url = image_url }

-- `db.add` and its flush, with the unique column.
unfoldable pub insert_category : String → Option String → Service Category
unfolding name_taken category_row
insert_category name image_url = do
  id ← query (λ db. db.categories.next_id)
  taken ← query (name_taken id name)
  unless (not taken) integrity_error
  write (λ db. record db { categories = add_row (category_row name image_url) db.categories })
  pure (category_row name image_url id)

unfoldable pub create_category : Staff → String → Option String → Shop → Outcome Category × Shop
unfolding insert_category invalidate
create_category actor name image_url =
    changing invalidate
      (do ensure_manager actor; c ← insert_category name image_url; commit; pure c)

-- The fields that the request sets.
pub record CategoryChange : Type 0 where
  pub name : Option String
  pub image_url : Option (Option String)

abbrev pub set_field {ℓ} : {A : Type ℓ} → Option A → A → A
set_field none old = old
set_field (some new) old = new

unfoldable pub changed_category : CategoryChange → Category → Category
changed_category ch c = record c {
  name = set_field ch.name c.name;
  image_url = set_field ch.image_url c.image_url;
}

unfoldable pub put_category : Category → Database → Database
put_category c db = record db {
  categories = record db.categories {
    rows = update_rows (λ v. v.id == c.id) (λ v. c) db.categories.rows;
  };
}

unfoldable pub update_category : Staff → ℕ → CategoryChange → Shop → Outcome Category × Shop
unfolding get_category name_taken changed_category put_category invalidate
update_category actor id ch = changing invalidate (do
  ensure_manager actor
  c ← get_category id
  taken ← query (name_taken c.id (changed_category ch c).name)
  unless (not taken) integrity_error
  write (put_category (changed_category ch c))
  commit
  pure (changed_category ch c))

-- The relationship has no cascade: it would set the products' column to NULL, which it may not be.
unfoldable pub delete_category : Staff → ℕ → Shop → Outcome (Unit {0}) × Shop
unfolding get_category in_category invalidate
delete_category actor id = changing invalidate (do
  ensure_manager actor
  c ← get_category id
  n ← query (λ db. count (in_category c.id) db.products.rows)
  unless (n == 0) integrity_error
  write (λ db. record db {
    categories = record db.categories {
      rows = select (λ v. not (v.id == c.id)) db.categories.rows;
    };
  })
  commit)

unfoldable pub product_row : String → ℕ → ℤ → Option String → ℕ → Product
product_row name category_id price image_url id = record {
  id = id;
  category_id = category_id;
  name = name;
  price = price;
  image_url = image_url;
}

unfoldable pub insert_product : String → ℕ → ℤ → Option String → Service Product
unfolding fits_price product_row
insert_product name category_id price image_url = do
  unless (fits_price price) data_error
  id ← query (λ db. db.products.next_id)
  write (λ db. record db {
    products = add_row (product_row name category_id price image_url) db.products;
  })
  pure (product_row name category_id price image_url id)

unfoldable pub create_product :
    Staff → String → ℕ → ℤ → Option String → Shop → Outcome Product × Shop
unfolding get_category insert_product invalidate_products
create_product actor name category_id price image_url = changing invalidate_products (do
  ensure_manager actor
  get_category category_id
  p ← insert_product name category_id price image_url
  commit
  pure p)

pub record ProductChange : Type 0 where
  pub name : Option String
  pub category_id : Option ℕ
  pub price : Option ℤ
  pub image_url : Option (Option String)

unfoldable pub changed_product : ProductChange → Product → Product
changed_product ch p = record p {
  name = set_field ch.name p.name;
  category_id = set_field ch.category_id p.category_id;
  price = set_field ch.price p.price;
  image_url = set_field ch.image_url p.image_url;
}

unfoldable pub put_product : Product → Database → Database
put_product p db = record db {
  products = record db.products {
    rows = update_rows (λ v. v.id == p.id) (λ v. p) db.products.rows;
  };
}

abbrev check_category : Option ℕ → Service (Unit {0})
check_category none = pure tt
check_category (some id) = do get_category id; pure tt

unfoldable pub update_product : Staff → ℕ → ProductChange → Shop → Outcome Product × Shop
unfolding get_product get_category fits_price changed_product put_product invalidate_products
update_product actor id ch = changing invalidate_products (do
  ensure_manager actor
  p ← get_product id
  check_category ch.category_id
  unless (fits_price (changed_product ch p).price) data_error
  write (put_product (changed_product ch p))
  commit
  pure (changed_product ch p))

unfoldable pub remove_product : ℕ → Database → Database
remove_product id db = record db {
  products = record db.products { rows = select (λ v. not (v.id == id)) db.products.rows };
}

unfoldable pub delete_product : Staff → ℕ → Shop → Outcome (Unit {0}) × Shop
unfolding get_product remove_product invalidate_products
delete_product actor id =
    changing invalidate_products
      (do ensure_manager actor; p ← get_product id; write (remove_product p.id); commit)
