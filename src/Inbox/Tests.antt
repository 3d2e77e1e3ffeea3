-- ===== src/Inbox/Tests.antt =====
-- The inbox at a concrete database.
use sardoba_app_server.Prelude.{◌≡◌, refl, false, none, some, [], ◌∷◌, select, order_by}
use sardoba_app_server.Samples.{database_of}
use sardoba_app_server.Models.{UserNotification, Database}
use sardoba_app_server.Inbox.{list_for_user, has_type}

abbrev news : UserNotification
news = record {
  id = 4;
  user_id = 7;
  notification_id = some 1;
  title = "Menu";
  description = "New dishes";
  type = none;
  payload = none;
  language = "ru";
  is_sent = false;
  sent_at = none;
  is_read = false;
  created_at = 0;
}

abbrev inbox : Database
inbox = record (database_of [] [] []) { notifications = record { rows = news ∷ []; next_id = 5 } }

-- A notification without a type is not listed where types are excluded.
untyped_hidden : list_for_user 7 none ("cashback_accrual" ∷ []) inbox ≡ []
unfolding list_for_user has_type select order_by
untyped_hidden = refl
