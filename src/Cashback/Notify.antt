-- ===== src/Cashback/Notify.antt =====
-- The message about a cashback change: `notify_cashback_change` and `build_cashback_message` of
-- app/services/push_notification_service.py and `create_notification` of
-- app/services/user_notification_service.py. Websocket delivery is left out: it happens later, on
-- another session.
use text.Mathlib.Text.{◌==◌ as str_eq}
use sardoba_app_server.Prelude.{
  ℕ, String, Bool, false, Option, none, some, List, [], ◌∷◌, ◌==◌, if◌then◌else◌, select,
}
use sardoba_app_server.Prelude.Int.{ℤ, pos, abs, ltb_ℤ, eqb_ℤ}
use sardoba_app_server.Prelude.Dict.{Dict}
use sardoba_app_server.Json.{Json, str}
use sardoba_app_server.Text.{join}
use sardoba_app_server.Models.{UserNotification, NotificationDeviceToken, Database, add_row}
use sardoba_app_server.Service.{Service, ◌>>=◌, ◌>>◌, pure, query, write, commit}

abbrev is_gain : ℤ → Bool
is_gain amount = ltb_ℤ (pos 0) amount

-- The templates by language; an unknown language falls back to Russian.
unfoldable pub build_cashback_message : String → String → ℤ → String × String
build_cashback_message language amount_str amount =
    if str_eq language "uz"
    then (if is_gain amount
        then (
          "Cashback qo‘shildi",
          join "+" (join amount_str " so‘m hisobingizga cashback qo‘shildi!"),
        )
        else ("Cashback ishlatildi", join "-" (join amount_str " so‘m cashbackdan ishlatildi")))
    else (if is_gain amount
        then ("Кешбек начислен", join "+" (join amount_str " сум начислено на ваш кешбек!"))
        else ("Кешбек использован", join "-" (join amount_str " сум списано с кешбека")))

has_language : List NotificationDeviceToken → String
has_language [] = "ru"
has_language (t ∷ ts) = if str_eq t.language "" then has_language ts else t.language

unfoldable pub preferred_language : ℕ → Database → String
unfolding has_language
preferred_language user_id db = has_language (select (λ t. t.user_id == user_id) db.tokens.rows)

pub record NewNotification : Type 0 where
  pub user_id : ℕ
  pub notification_id : Option ℕ
  pub title : String
  pub description : String
  pub type : Option String
  pub payload : Option (Dict Json)
  pub language : String

unfoldable pub notification_row : NewNotification → ℕ → ℕ → UserNotification
notification_row n now id = record {
  id = id;
  user_id = n.user_id;
  notification_id = n.notification_id;
  title = n.title;
  description = n.description;
  type = n.type;
  payload = n.payload;
  language = n.language;
  is_sent = false;
  sent_at = none;
  is_read = false;
  created_at = now;
}

unfoldable pub create_notification : NewNotification → ℕ → Service (Unit {0})
unfolding notification_row
create_notification n now = do
  write (λ db. record db { notifications = add_row (notification_row n now) db.notifications })
  commit

cashback_notification : (ℤ → String) → ℕ → ℤ → String → NewNotification
unfolding build_cashback_message
cashback_notification show_amount user_id amount language =
    let (title, description) = build_cashback_message language (show_amount (abs amount)) amount in
    let data_type : String = (if is_gain amount then "cashback_accrual" else "cashback_spent") in
    record {
      user_id = user_id;
      notification_id = none;
      title = title;
      description = description;
      type = some data_type;
      payload = some (("type", str data_type) ∷ ("amount", str (show_amount amount)) ∷ []);
      language = language;
    }

unfoldable pub notify_cashback_change : (ℤ → String) → ℕ → ℤ → Bool → ℕ → Service (Unit {0})
unfolding preferred_language cashback_notification create_notification
notify_cashback_change show_amount user_id amount persist now =
    if eqb_ℤ amount (pos 0) then pure tt else (do
      language ← query (preferred_language user_id)
      (if persist
          then create_notification (cashback_notification show_amount user_id amount language) now
          else pure tt))
