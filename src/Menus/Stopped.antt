-- ===== src/Menus/Stopped.antt =====
-- The merged menu of app/services/ikko_myresto_menu.py and the stop lists.
use sardoba_app_server.Prelude.{ℕ, String, Option, List, [], All}
use sardoba_app_server.Menus.{
  RawCategory, Branches, merge_payloads, sort_prices, output_item, output_category, merge_menus,
}
use sardoba_app_server.Menus.Marks.{
  All-map, HasIds, Marked, Merged, IsTrueMark, IsMarked-All, IsMarkedCategory, sort_prices-IsMarked,
  merge_payloads-Merged,
}
use sardoba_app_server.Menus.Listed.{Any, Any-map, Lists, Sells, merge_payloads-new, output-Lists}

module _ (b : Branches) where
  -- Where some branch shows an item in a category that it shows, and the size of the item that counts has a
  -- price for a store, the merged menu of the branches has the item with a price for that store, however often
  -- the item, the store and the category come. And in the menu every price is disabled if, and only if, the
  -- stop list of its store names its item. All items of the branches must have ids.
  pub merge_menus-IsMarked :
      (payloads : List (List RawCategory)) (id : Option String) (store : ℕ)
      → All (All (HasIds b)) payloads
      → Any (Any (Sells id store)) payloads
      → Any (Lists id store) (merge_menus b payloads)
        × All (IsMarkedCategory b) (merge_menus b payloads)
  unfolding merge_menus
  merge_menus-IsMarked payloads id store h sold = (
    Any-map (Lists id store) (Lists id store) output_category (merge_payloads b payloads [])
        (output-Lists b id store) (merge_payloads-new b id store payloads [] h tt sold),
    All-map (Merged b) (IsMarkedCategory b) output_category (merge_payloads b payloads [])
        (λ c hc.
          All-map (Marked b) (λ x. All (IsTrueMark b x.id) x.prices) output_item c.items
            (λ x hx.
              IsMarked-All b x.id (sort_prices x.prices) hx.named
                (sort_prices-IsMarked b x.id x.prices hx.marks))
            hc)
        (merge_payloads-Merged b payloads [] h tt),
  )
