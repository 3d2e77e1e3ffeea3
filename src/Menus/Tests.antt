-- ===== src/Menus/Tests.antt =====
-- A menu of two branches, one of which is out of an item.
use sardoba_app_server.Prelude.{refl, first, inl, false, true, none, some, [], ◌∷◌, All}
use sardoba_app_server.Prelude.Int.{pos}
use sardoba_app_server.Menus.{RawCategory, RawItem, Branches, merge_menus, default_size}
use sardoba_app_server.Menus.Marks.{IsMarkedCategory}
use sardoba_app_server.Menus.Listed.{Any, Lists}
use sardoba_app_server.Menus.Stopped.{merge_menus-IsMarked}

abbrev branches : Branches
branches = record {
  stoplists = (139_235, "palov" ∷ []) ∷ (139_350, []) ∷ [];
  store_name = λ s. "Sardoba";
  show = λ n. "0";
}

abbrev palov : RawItem
palov = record {
  item_id = some "palov";
  name = some "Palov";
  slug = none;
  is_hidden = false;
  item_sizes =
      record {
        is_default = true;
        prices =
            record { store_id = some 139_350; price = some (pos 35_000) }
            ∷ record { store_id = some 139_235; price = some (pos 36_000) }
            ∷ [];
        button_image = none;
      }
      ∷ [];
  button_image = none;
}

abbrev meals : RawCategory
meals = record {
  id = none;
  name = some "Osh";
  slug = some "osh";
  is_hidden = false;
  items = palov ∷ [];
}

merge_menus-IsMarked_example :
    Any (Lists (some "palov") 139_350) (merge_menus branches ((meals ∷ []) ∷ (meals ∷ []) ∷ []))
    × All (IsMarkedCategory branches) (merge_menus branches ((meals ∷ []) ∷ (meals ∷ []) ∷ []))
unfolding default_size first
merge_menus-IsMarked_example =
    merge_menus-IsMarked branches ((meals ∷ []) ∷ (meals ∷ []) ∷ []) (some "palov") 139_350
      (((refl, tt), tt), (((refl, tt), tt), tt))
      (inl (inl (refl, inl (refl, refl, _, refl, inl (refl, _, refl)))))
