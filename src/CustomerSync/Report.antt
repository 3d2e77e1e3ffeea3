-- ===== src/CustomerSync/Report.antt =====
-- The result of a synchronisation: `SyncResult` of app/services/auth_service.py without the id of the
-- run.
use text.Mathlib.Text.{◌==◌ as str_eq}
use sardoba_app_server.Prelude.{
  String, Bool, true, false, ◌||◌, Option, none, some, List, [], ◌∷◌, ◌++◌, if◌then◌else◌,
}

-- One step of the run, as the result reports it.
pub record Operation : Type 0 where
  pub operation : String
  pub status : String
  pub reason : Option String

pub record SyncResult : Type 0 where
  pub ok? : Bool
  pub updated : Bool
  pub changed_fields : List String
  pub warnings : List String
  pub error : Option String
  pub operations : List Operation

abbrev pub new_result : SyncResult
new_result = record {
  ok? = true;
  updated = false;
  changed_fields = [];
  warnings = [];
  error = none;
  operations = [];
}

unfoldable pub fail : String → SyncResult → SyncResult
fail reason r = record r { ok? = false; error = some reason }

unfoldable pub has_field : String → List String → Bool
has_field f [] = false
has_field f (g ∷ gs) = str_eq g f || has_field f gs

-- The fields are a set.
unfoldable pub add_change : String → SyncResult → SyncResult
unfolding has_field
add_change f r = record r {
  changed_fields = if has_field f r.changed_fields then r.changed_fields else f ∷ r.changed_fields;
  updated = true;
}

unfoldable pub add_warning : String → SyncResult → SyncResult
add_warning w r = record r { warnings = r.warnings ++ w ∷ [] }

unfoldable pub add_operation : String → String → Option String → SyncResult → SyncResult
add_operation name status reason r = record r {
  operations = r.operations ++ record { operation = name; status = status; reason = reason } ∷ [];
}
