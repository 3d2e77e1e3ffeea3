-- ===== src/Iiko/Payload.antt =====
-- What app/services/auth_service.py sends to iiko about a user.
use text.Mathlib.Text.{◌==◌ as str_eq}
use sardoba_app_server.Prelude.{ℕ, String, Option, none, some, [], ◌∷◌, ◌++◌, if◌then◌else◌}
use sardoba_app_server.Prelude.Dict.{Dict}
use sardoba_app_server.Json.{Json, str}
use sardoba_app_server.Text.{join, strip}
use sardoba_app_server.Models.{User}
use sardoba_app_server.Cards.{or_text}
use sardoba_app_server.Iiko.{Readers}
use sardoba_app_server.Iiko.Reading.{non_empty}

unfoldable pub clean_value : Option String → Option String
unfolding strip
clean_value none = none
clean_value (some t) = non_empty (strip t)

unfoldable pub format_iiko_birthday_value : Readers → Option ℕ → Option String
format_iiko_birthday_value r none = none
format_iiko_birthday_value r (some d) = some (join (r.strftime d) "T00:00:00.000")

abbrev or_date : Option ℕ → Option ℕ → Option ℕ
or_date none d = d
or_date (some d) e = some d

-- if value: payload[key] = value
abbrev entry : String → Option String → Dict Json
entry key none = []
entry key (some t) = if str_eq t "" then [] else (key, str t) ∷ []

unfoldable pub build_customer_payload : Readers → User → Option String → Option ℕ → Dict Json
unfolding clean_value format_iiko_birthday_value
build_customer_payload r user name date_of_birth =
    let cleaned_name = clean_value (or_text name user.name) in
    ("comment", str "CASHBACK MOBILE APP CLIENT")
    ∷ (entry "fullName" cleaned_name
        ++ (entry "name" cleaned_name
            ++ (entry "birthday"
                  (format_iiko_birthday_value r (or_date date_of_birth user.date_of_birth))
                ++ (entry "email" user.email
                    ++ (entry "sex" user.gender
                        ++ (entry "surname" (clean_value user.surname)
                            ++ entry "middleName" (clean_value user.middle_name)))))))
