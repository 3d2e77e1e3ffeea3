-- ===== src/Catalog/Tests.antt =====
-- The cached lists after a change at a concrete catalog.
use sardoba_app_server.Prelude.{none, some, [], ◌∷◌}
use sardoba_app_server.Prelude.Int.{pos}
use sardoba_app_server.Samples.{database_of, session_of, sample_manager}
use sardoba_app_server.Catalog.Lists.{Order, Shop, products}
use sardoba_app_server.Catalog.Fresh.{Change, take_menu, IsFreshChange, catalog_change-IsFresh}

abbrev as_stored : Order
as_stored = record { categories = λ cs. cs; products = λ ps. ps; show = λ n. "1" }

-- A list of products that is out of date is cached.
abbrev stale : Shop
stale = record {
  session = session_of (database_of [] [] []);
  cache = ("products:category:all", record { value = products []; expires_at = 60 }) ∷ [];
}

abbrev menu : Change
menu = take_menu (
    record {
      name = some " Osh ";
      items =
          record { name = some "Palov"; prices = none ∷ some (pos 3_500_000) ∷ []; images = [] }
          ∷ [];
    }
    ∷ [])

catalog_change-IsFresh_example : IsFreshChange as_stored sample_manager menu stale
catalog_change-IsFresh_example = catalog_change-IsFresh as_stored sample_manager menu stale
