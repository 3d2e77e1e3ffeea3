-- ===== src/Json.antt =====
-- JSON values, as the payload columns and the iiko API hold them. Numbers are whole.
use sardoba_app_server.Prelude.{String, Bool, List, [], ◌∷◌}
use sardoba_app_server.Prelude.Dict.{Dict}
use sardoba_app_server.Prelude.Int.{ℤ}

mutual
  pub data Json : Type 0 where
    null : Json
    bool : Bool → Json
    num : ℤ → Json
    str : String → Json
    arr : Items → Json
    obj : Fields → Json

  pub data Items : Type 0 where
    nil : Items
    cons : Json → Items → Items

  pub data Fields : Type 0 where
    end : Fields
    field : String → Json → Fields → Fields

abbrev pub dict_of : Fields → Dict Json
dict_of end = []
dict_of (field k v fs) = (k, v) ∷ dict_of fs

abbrev pub fields_of : Dict Json → Fields
fields_of [] = end
fields_of ((k, v) ∷ d) = field k v (fields_of d)

abbrev pub items_of : Items → List Json
items_of nil = []
items_of (cons x xs) = x ∷ items_of xs
