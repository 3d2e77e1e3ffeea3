-- ===== src/Catalog/Lists.antt =====
-- The cached lists of app/services/catalog_service.py, and their invalidation.
use sardoba_app_server.Prelude.{
  ℕ, String, Bool, true, ◌&&◌, Option, none, some, List, map, ◌==◌, if◌then◌else◌, first, select,
  is_some,
}
use sardoba_app_server.Prelude.Dict.{Dict}
use sardoba_app_server.Text.{join}
use sardoba_app_server.Models.{Category, Product, Database}
use sardoba_app_server.Cards.{or_text}
use sardoba_app_server.Cache.{InMemoryEntry, clear_namespace, cached}
use sardoba_app_server.Service.{Session}

-- `order_by` a name, and the text of a number.
pub record Order : Type 0 where
  pub categories : List Category → List Category
  pub products : List Product → List Product
  pub show : ℕ → String

-- The cached answers.
pub data Listing : Type 0 where
  categories : List Category → Listing
  products : List Product → Listing
  full : List (Category × List Product) → Listing

pub record Shop : Type 0 where
  pub session : Session
  pub cache : Dict (InMemoryEntry Listing)

unfoldable pub in_category : ℕ → Product → Bool
in_category id p = p.category_id == id

unfoldable pub fallback_image : ℕ → Database → Option String
unfolding in_category
fallback_image id db =
    elim (first (λ p. in_category id p && is_some p.image_url) db.products.rows) [
      | none ↦ none
      | some p ↦ p.image_url
    ]

unfoldable pub serialize_category : Option String → Category → Category
serialize_category image c = record c { image_url = or_text c.image_url image }

unfoldable pub list_categories : Order → Database → Listing
unfolding fallback_image serialize_category
list_categories o db =
    categories
      (map (λ c. serialize_category (fallback_image c.id db) c) (o.categories db.categories.rows))

-- No category, or the id 0, stands for all.
abbrev pub wanted : Option ℕ → Option ℕ
wanted none = none
wanted (some id) = if id == 0 then none else some id

abbrev pub is_wanted : Option ℕ → Product → Bool
is_wanted none p = true
is_wanted (some id) p = in_category id p

unfoldable pub list_products : Order → Option ℕ → Database → Listing
unfolding in_category
list_products o category_id db =
    products (o.products (select (is_wanted (wanted category_id)) db.products.rows))

abbrev pub products_key : Order → Option ℕ → String
products_key o none = "category:all"
products_key o (some id) = join "category:" (o.show id)

unfoldable pub list_full : Order → Database → Listing
unfolding in_category
list_full o db =
    full
      (map (λ c. (c, select (in_category c.id) db.products.rows)) (o.categories db.categories.rows))

-- A list as the service returns it, at a time.
abbrev pub read_cached : String → String → (Database → Listing) → ℕ → Shop → Listing × Shop
read_cached namespace identifier fetch now s =
    let (l, cache) = cached 60 namespace now identifier (fetch s.session.work) s.cache in
    (l, record s { cache = cache })

unfoldable pub get_cached_categories : Order → ℕ → Shop → Listing × Shop
unfolding cached list_categories
get_cached_categories o = read_cached "categories" "all" (list_categories o)

unfoldable pub get_cached_products : Order → Option ℕ → ℕ → Shop → Listing × Shop
unfolding cached list_products
get_cached_products o category_id =
    read_cached "products" (products_key o (wanted category_id)) (list_products o category_id)

unfoldable pub get_categories_with_products_cached : Order → ℕ → Shop → Listing × Shop
unfolding cached list_full
get_categories_with_products_cached o = read_cached "catalog_full" "full" (list_full o)

unfoldable pub invalidate_products : Dict (InMemoryEntry Listing) → Dict (InMemoryEntry Listing)
unfolding clear_namespace
invalidate_products d =
    clear_namespace "categories" (clear_namespace "catalog_full" (clear_namespace "products" d))

unfoldable pub invalidate : Dict (InMemoryEntry Listing) → Dict (InMemoryEntry Listing)
unfolding clear_namespace invalidate_products
invalidate d = invalidate_products (clear_namespace "categories" d)
