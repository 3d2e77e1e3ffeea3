-- ===== src/Waiters/Tests.antt =====
-- Waiters at concrete databases.
use text.Mathlib.Text.{◌==◌ as str_eq}
use text.Mathlib.TextEquality.{eq_iff}
use sardoba_app_server.Prelude.{
  String, ◌&&◌, Bool-cases, inl, inr, ◌∙◌, sym, ◌≡◌, refl, false, true, none, some, [], ◌∷◌, count,
  first, arith,
}
use sardoba_app_server.Samples.{database_of, sample_waiter, sample_user, with_staff}
use sardoba_app_server.Models.{Database, Staff}
use sardoba_app_server.Service.{request}
use sardoba_app_server.Tokens.Tests.Plain.{plain_security}
use sardoba_app_server.Waiters.{
  WaiterUpdate, update_waiter, delete_waiter, find_waiter_by_id, has_transactions,
}
use sardoba_app_server.Waiters.Update.{IsStaffTable, update_waiter-IsStaffTable}
use sardoba_app_server.Waiters.Removal.{IsDeletion, delete_waiter-IsDeletion}

abbrev other_waiter : Staff
other_waiter = record sample_waiter {
  id = 3;
  phone = "+998907778899";
  referral_code = some "XY34ZT";
}

abbrev office : Database
office =
    with_staff (sample_waiter ∷ other_waiter ∷ []) []
      (database_of (record sample_user { waiter_id = some 2 } ∷ []) [] [])

not_both : (a b t : String) → str_eq a b ≡ false → (str_eq a t && str_eq b t) ≡ false
not_both a b t e = elim (Bool-cases (str_eq a t)) [
  | inl same ↦
      let here : b ≡ t → ⊥ = λ there. cc (e, (eq_iff a b).1 ((eq_iff a t).0 same ∙ sym there)) in
      elim (Bool-cases (str_eq b t)) [
        | inl there ↦ absurd (here ((eq_iff b t).0 there))
        | inr other ↦ rw (same, other) refl
      ]
  | inr other ↦ rw other refl
]

office-IsStaffTable : IsStaffTable office
unfolding count
office-IsStaffTable = record {
  ids = record { unique = λ n. ground arith; below = (omega arith, (omega arith, tt)) };
  phones = λ phone. ground (arith, not_both sample_waiter.phone other_waiter.phone phone refl);
  referrals = λ code. ground (arith, not_both "AB12CD" "XY34ZT" code refl);
}

-- The code of the other waiter.
abbrev change : WaiterUpdate
change = record {
  name = some "Vali aka";
  phone = none;
  password = some "new";
  branch_id = none;
  branch_is_set = false;
  referral_code = some " XY34ZT ";
  referral_code_is_set = true;
}

update_waiter-IsStaffTable_example :
    IsStaffTable (request (update_waiter plain_security "salt" 2 change) office).1
update_waiter-IsStaffTable_example =
    update_waiter-IsStaffTable plain_security "salt" 2 change office office-IsStaffTable

delete_waiter-IsDeletion_example : IsDeletion false 2 3 office (request (delete_waiter 2) office)
unfolding find_waiter_by_id first has_transactions count
delete_waiter-IsDeletion_example = delete_waiter-IsDeletion 2 3 office sample_waiter refl refl
