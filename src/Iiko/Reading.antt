-- ===== src/Iiko/Reading.antt =====
-- What app/services/auth_service.py reads from a customer of iiko: names, birthday, sex, wallets.
use text.Mathlib.Text.{◌==◌ as str_eq}
use sardoba_app_server.Prelude.{
  String, Bool, true, false, not, ◌||◌, Option, none, some, List, [], ◌∷◌, ℕ, if◌then◌else◌,
}
use sardoba_app_server.Prelude.Int.{pos, eqb_ℤ}
use sardoba_app_server.Prelude.Dict.{Dict, lookup}
use sardoba_app_server.Json.{Json, null, bool, num, str, arr, obj, nil, end}
use sardoba_app_server.Text.{join, strip}
use sardoba_app_server.Cards.{or_text}
use sardoba_app_server.Iiko.{IikoWallet, Readers}

-- bool(value)
unfoldable pub truthy_json : Json → Bool
truthy_json null = false
truthy_json (bool b) = b
truthy_json (num n) = not (eqb_ℤ n (pos 0))
truthy_json (str s) = not (str_eq s "")
truthy_json (arr nil) = false
truthy_json (obj end) = false
truthy_json _ = true

-- `d.get(k)`: null is None too.
abbrev given : Option Json → Option Json
given (some null) = none
given o = o

unfoldable pub value_of : String → Dict Json → Option Json
value_of k d = given (lookup k d)

-- a or b
unfoldable pub or_value : Option Json → Option Json → Option Json
unfolding truthy_json
or_value none b = b
or_value (some a) b = if truthy_json a then some a else b

-- Of a text, what is left without surrounding space, if anything is.
abbrev pub non_empty : String → Option String
non_empty s = if str_eq s "" then none else some s

unfoldable pub clean_text : Option Json → Option String
unfolding strip
clean_text (some (str t)) = non_empty (strip t)
clean_text _ = none

unfoldable pub extract_iiko_string : List String → Dict Json → Option String
unfolding clean_text value_of
extract_iiko_string [] d = none
extract_iiko_string (k ∷ ks) d = elim (clean_text (value_of k d)) [
  | none ↦ extract_iiko_string ks d
  | some t ↦ some t
]

abbrev cons_given : Option String → List String → List String
cons_given none ts = ts
cons_given (some t) ts = t ∷ ts

candidates : Dict Json → List String
candidates d = cons_given (clean_text (value_of "name" d)) (
    cons_given (clean_text (value_of "middleName" d))
      (cons_given (clean_text (value_of "surname" d)) []))

-- " ".join(ts)
join_words : List String → String
join_words [] = ""
join_words (t ∷ []) = t
join_words (t ∷ u ∷ ts) = join t (join " " (join_words (u ∷ ts)))

unfoldable pub compose_iiko_name : Dict Json → Option String
unfolding candidates join_words or_value clean_text value_of
compose_iiko_name d = elim (candidates d) [
  | [] ↦ clean_text (or_value (value_of "fullName" d) (value_of "full_name" d))
  | t ∷ ts ↦ some (join_words (t ∷ ts))
]

abbrev formats : List String
formats =
    "%Y-%m-%d %H:%M:%S.%f" ∷ "%Y-%m-%d %H:%M:%S" ∷ "%Y-%m-%d" ∷ "%Y-%m-%dT%H:%M:%S.%f"
    ∷ "%Y-%m-%dT%H:%M:%S" ∷ []

read_date : Readers → List String → String → Option ℕ
read_date r [] text = r.fromisoformat text
read_date r (f ∷ fs) text = elim (r.strptime f text) [
  | none ↦ read_date r fs text
  | some d ↦ some d
]

unfoldable pub parse_iiko_birthday : Readers → Option Json → Option ℕ
unfolding read_date strip
parse_iiko_birthday r (some (str t)) =
    if str_eq (strip t) "" then none else read_date r formats (strip t)
parse_iiko_birthday r _ = none

unfoldable pub map_iiko_sex : Readers → Option Json → Option String
unfolding strip
map_iiko_sex r none = none
map_iiko_sex r (some v) =
    let candidate = r.lower (strip (r.str_of v)) in
    if str_eq candidate ""
    then none
    else (if str_eq candidate "1"
          || (str_eq candidate "male" || (str_eq candidate "m" || str_eq candidate "man"))
        then some "male"
        else (if str_eq candidate "2"
              || (str_eq candidate "female" || (str_eq candidate "f" || str_eq candidate "woman"))
            then some "female"
            else some candidate))

-- cleaned in {"true", "1", "yes", "y"} for a text.
unfoldable pub is_iiko_deleted : Readers → Option Json → Bool
unfolding strip
is_iiko_deleted r (some (bool b)) = b
is_iiko_deleted r (some (num n)) = not (eqb_ℤ n (pos 0))
is_iiko_deleted r (some (str t)) =
    let cleaned = r.lower (strip t) in
    str_eq cleaned "true" || (str_eq cleaned "1" || (str_eq cleaned "yes" || str_eq cleaned "y"))
is_iiko_deleted r _ = false

abbrev wallet_key : IikoWallet → Option String
wallet_key w = or_text w.id w.wallet_id

-- The first wallet that has an id.
unfoldable pub extract_wallet_id : List IikoWallet → Option String
extract_wallet_id [] = none
extract_wallet_id (w ∷ ws) = elim (wallet_key w) [
  | none ↦ extract_wallet_id ws
  | some id ↦ if str_eq id "" then extract_wallet_id ws else some id
]

-- value == 1, which True is too.
is_one : Option Json → Bool
is_one (some (num n)) = eqb_ℤ n (pos 1)
is_one (some (bool b)) = b
is_one _ = false

typed_wallet : List IikoWallet → Option IikoWallet
typed_wallet [] = none
typed_wallet (w ∷ ws) = if is_one (value_of "type" w.fields) then some w else typed_wallet ws

unfoldable pub target_wallet : List IikoWallet → Option IikoWallet
unfolding typed_wallet is_one value_of
target_wallet [] = none
target_wallet (w ∷ ws) = elim (typed_wallet (w ∷ ws)) [ none ↦ some w | some v ↦ some v ]

unfoldable pub balance_value : Dict Json → Option Json
unfolding value_of
balance_value d = elim (value_of "balance" d) [
  | some v ↦ some v
  | none ↦ elim (value_of "availableBalance" d) [ some v ↦ some v | none ↦ value_of "amount" d ]
]
