-- ===== src/Catalog/Fresh.antt =====
-- The cached lists of app/services/catalog_service.py after a change of the catalog.
use sardoba_app_server.Prelude.{
  ℕ, ◌≡◌, refl, String, true, Option, none, List, inl, inr, subst, sym, Bool-cases, if◌then◌else◌,
}
use sardoba_app_server.Prelude.Int.{ℤ}
use sardoba_app_server.Prelude.Dict.{Dict, lookup}
use sardoba_app_server.Text.{join, has_prefix}
use sardoba_app_server.Failure.{Outcome, ok, raised}
use sardoba_app_server.Models.{Staff}
use sardoba_app_server.Cache.{InMemoryEntry, build_cache_key, cached, get, clear_namespace}
use sardoba_app_server.Cache.View.{lookup-drop_prefix}
use sardoba_app_server.Catalog.Lists.{
  Order, Listing, Shop, invalidate, invalidate_products, list_categories, list_products, list_full,
  get_cached_categories, get_cached_products, get_categories_with_products_cached, products_key,
  wanted,
}
use sardoba_app_server.Catalog.{
  invalidated, CategoryChange, ProductChange, create_category, update_category, delete_category,
  create_product, update_product, delete_product,
}
use sardoba_app_server.Catalog.Menu.{MenuCategory, sync_from_iiko}

-- The three lists, at any time, are those of the session's database.
pub record IsFresh (o : Order) (s : Shop) : Type 0 where
  pub categories : (now : ℕ) → (get_cached_categories o now s).0 ≡ list_categories o s.session.work
  pub products :
      (id : Option ℕ) (now : ℕ)
      → (get_cached_products o id now s).0 ≡ list_products o id s.session.work
  pub full :
      (now : ℕ) → (get_categories_with_products_cached o now s).0 ≡ list_full o s.session.work

module _ {V : Type 0} where
  lookup-clear :
      (namespace key : String) (d : Dict (InMemoryEntry V))
      → lookup key (clear_namespace namespace d)
        ≡ (if has_prefix (join namespace ":") key then none else lookup key d)
  unfolding clear_namespace
  lookup-clear namespace key d = lookup-drop_prefix (join namespace ":") key d

  cached_missing :
      (ttl : ℕ) (namespace : String) (now : ℕ) (identifier : String) (v : V)
      (d : Dict (InMemoryEntry V))
      → lookup (build_cache_key namespace identifier) d ≡ none
      → (cached ttl namespace now identifier v d).0 ≡ v
  unfolding cached get
  cached_missing ttl namespace now identifier v d e = rw (cached, get, e) refl

module _ {V : Type 0} where
  clear-prefix :
      (namespace key : String) (d : Dict (InMemoryEntry V))
      → has_prefix (join namespace ":") key ≡ true
      → lookup key (clear_namespace namespace d) ≡ none
  clear-prefix namespace key d e = rw (lookup-clear namespace key d, e) refl

  clear-none :
      (namespace key : String) (d : Dict (InMemoryEntry V))
      → lookup key d ≡ none
      → lookup key (clear_namespace namespace d) ≡ none
  clear-none namespace key d e = elim (Bool-cases (has_prefix (join namespace ":") key)) [
    | inl mine ↦ clear-prefix namespace key d mine
    | inr other ↦ rw (lookup-clear namespace key d, other) e
  ]

-- The entry of no list is left.
IsCleared : Dict (InMemoryEntry Listing) → Type 0
IsCleared d =
    (lookup (build_cache_key "categories" "all") d ≡ none)
    × ((t : String) → lookup (build_cache_key "products" t) d ≡ none)
    × (lookup (build_cache_key "catalog_full" "full") d ≡ none)

invalidate_products-IsCleared :
    (d : Dict (InMemoryEntry Listing)) → IsCleared (invalidate_products d)
unfolding IsCleared invalidate_products has_prefix build_cache_key
invalidate_products-IsCleared d = (
  clear-prefix "categories" (build_cache_key "categories" "all")
      (clear_namespace "catalog_full" (clear_namespace "products" d)) refl,
  λ t. clear-none "categories" _ _ (
      clear-none "catalog_full" _ _
        (clear-prefix "products" (build_cache_key "products" t) d refl)),
  clear-none "categories" _ _ (
      clear-prefix "catalog_full" (build_cache_key "catalog_full" "full")
        (clear_namespace "products" d) refl),
)

invalidate-IsCleared : (d : Dict (InMemoryEntry Listing)) → IsCleared (invalidate d)
unfolding invalidate
invalidate-IsCleared d = invalidate_products-IsCleared (clear_namespace "categories" d)

cleared-IsFresh : (o : Order) (s : Shop) → IsCleared s.cache → IsFresh o s
unfolding IsCleared get_cached_categories get_cached_products get_categories_with_products_cached
cleared-IsFresh o s (c, p, f) = record {
  categories = λ now. cached_missing 60 "categories" now "all" _ s.cache c;
  products = λ id now.
      cached_missing 60 "products" now (products_key o (wanted id)) _ s.cache
        (p (products_key o (wanted id)));
  full = λ now. cached_missing 60 "catalog_full" now "full" _ s.cache f;
}

-- A change that went through leaves fresh lists.
abbrev pub FreshAfter : {A : Type 0} → Order → Outcome A × Shop → Type 0
FreshAfter o (ok a, s) = IsFresh o s
FreshAfter o (raised e, s) = Unit

settled-FreshAfter :
    {A : Type 0} (o : Order) (clear : Dict (InMemoryEntry Listing) → Dict (InMemoryEntry Listing))
    (d : Dict (InMemoryEntry Listing)) (result : Outcome A × Shop)
    → ((d : Dict (InMemoryEntry Listing)) → IsCleared (clear d))
    → result.1.cache ≡ invalidated clear result.0 d
    → FreshAfter o result
settled-FreshAfter o clear d (ok a, s) h e = cleared-IsFresh o s (subst IsCleared (sym e) (h d))
settled-FreshAfter o clear d (raised f, s) h e = tt

-- A call that changes the catalog.
pub data Change : Type 0 where
  new_category : String → Option String → Change
  change_category : ℕ → CategoryChange → Change
  drop_category : ℕ → Change
  new_product : String → ℕ → ℤ → Option String → Change
  change_product : ℕ → ProductChange → Change
  drop_product : ℕ → Change
  take_menu : List MenuCategory → Change

abbrev pub IsFreshChange : Order → Staff → Change → Shop → Type 0
IsFreshChange o actor (new_category name image) s =
    FreshAfter o (create_category actor name image s)
IsFreshChange o actor (change_category id c) s = FreshAfter o (update_category actor id c s)
IsFreshChange o actor (drop_category id) s = FreshAfter o (delete_category actor id s)
IsFreshChange o actor (new_product name id price image) s =
    FreshAfter o (create_product actor name id price image s)
IsFreshChange o actor (change_product id p) s = FreshAfter o (update_product actor id p s)
IsFreshChange o actor (drop_product id) s = FreshAfter o (delete_product actor id s)
IsFreshChange o actor (take_menu menu) s = FreshAfter o (sync_from_iiko menu actor s)

-- Once a change of the catalog went through, whether of a category, of a product or by a menu of iiko, each
-- of the three cached lists is the one that the database has then, at any time and whatever was cached.
pub catalog_change-IsFresh :
    (o : Order) (actor : Staff) (c : Change) (s : Shop) → IsFreshChange o actor c s
unfolding create_category update_category delete_category create_product update_product
    delete_product sync_from_iiko
catalog_change-IsFresh o actor (new_category name image) s =
    settled-FreshAfter o invalidate s.cache (create_category actor name image s)
      invalidate-IsCleared refl
catalog_change-IsFresh o actor (change_category id c) s =
    settled-FreshAfter o invalidate s.cache (update_category actor id c s) invalidate-IsCleared refl
catalog_change-IsFresh o actor (drop_category id) s =
    settled-FreshAfter o invalidate s.cache (delete_category actor id s) invalidate-IsCleared refl
catalog_change-IsFresh o actor (new_product name id price image) s =
    settled-FreshAfter o invalidate_products s.cache (create_product actor name id price image s)
      invalidate_products-IsCleared refl
catalog_change-IsFresh o actor (change_product id p) s =
    settled-FreshAfter o invalidate_products s.cache (update_product actor id p s)
      invalidate_products-IsCleared refl
catalog_change-IsFresh o actor (drop_product id) s =
    settled-FreshAfter o invalidate_products s.cache (delete_product actor id s)
      invalidate_products-IsCleared refl
catalog_change-IsFresh o actor (take_menu menu) s =
    settled-FreshAfter o invalidate s.cache (sync_from_iiko menu actor s) invalidate-IsCleared refl
