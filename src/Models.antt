-- ===== src/Models.antt =====
-- The rows of the database: app/models/*.py (the job queue's row is in SyncJobs). Times count
-- microseconds, dates days; money counts hundredths. `updated_at` and the columns that only the
-- database sets are left out.
use sardoba_app_server.Prelude.{ℕ, ◌+◌, String, Bool, Option, List, [], ◌∷◌, ◌++◌}
use sardoba_app_server.Prelude.Int.{ℤ}
use sardoba_app_server.Prelude.Dict.{Dict}
use sardoba_app_server.Json.{Json}
use sardoba_app_server.SyncJobs.{JobTable}

pub data StaffRole : Type 0 where
  manager waiter : StaffRole

pub data CashbackSource : Type 0 where
  qr order manual : CashbackSource

pub data AuthActorType : Type 0 where
  client staff : AuthActorType

pub data AuthAction : Type 0 where
  login logout otp_request otp_verification failed_login : AuthAction

pub data UserLevel : Type 0 where
  silver gold premium vip : UserLevel

pub record User : Type 0 where
  pub id : ℕ
  pub name : Option String
  pub surname : Option String
  pub middle_name : Option String
  pub phone : String
  pub waiter_id : Option ℕ
  pub date_of_birth : Option ℕ
  pub profile_photo_url : Option String
  pub level : UserLevel
  pub iiko_wallet_id : Option String
  pub iiko_customer_id : Option String
  pub pending_iiko_profile_update : Option (Dict Json)
  pub email : Option String
  pub gender : Option String
  pub is_deleted : Bool
  pub deleted_at : Option ℕ
  pub giftget : Bool

pub record Staff : Type 0 where
  pub id : ℕ
  pub name : String
  pub phone : String
  pub password_hash : String
  pub role : StaffRole
  pub branch_id : Option ℕ
  pub referral_code : Option String

pub record OtpCode : Type 0 where
  pub id : ℕ
  pub phone : String
  pub code : String
  pub purpose : String
  pub expires_at : ℕ
  pub is_used : Bool
  pub created_at : ℕ
  pub ip : Option String
  pub user_agent : Option String

pub record AuthLog : Type 0 where
  pub id : ℕ
  pub actor_type : AuthActorType
  pub actor_id : Option ℕ
  pub phone : Option String
  pub action : AuthAction
  pub ip : Option String
  pub user_agent : Option String
  pub meta : Dict Json
  pub created_at : ℕ

pub record CashbackBalance : Type 0 where
  pub user_id : ℕ
  pub balance : ℤ
  pub points : ℤ

pub record CashbackTransaction : Type 0 where
  pub id : ℕ
  pub user_id : ℕ
  pub staff_id : Option ℕ
  pub amount : ℤ
  pub branch_id : Option ℕ
  pub source : CashbackSource
  pub balance_after : ℤ
  pub iiko_event_id : Option String
  pub iiko_uoc_id : Option String
  pub created_at : ℕ

pub record UserNotification : Type 0 where
  pub id : ℕ
  pub user_id : ℕ
  pub notification_id : Option ℕ
  pub title : String
  pub description : String
  pub type : Option String
  pub payload : Option (Dict Json)
  pub language : String
  pub is_sent : Bool
  pub sent_at : Option ℕ
  pub is_read : Bool
  pub created_at : ℕ

pub record NotificationDeviceToken : Type 0 where
  pub id : ℕ
  pub user_id : ℕ
  pub device_token : Option String
  pub device_type : String
  pub language : String

pub record Card : Type 0 where
  pub id : ℕ
  pub user_id : ℕ
  pub card_number : String
  pub card_track : String
  pub iiko_card_id : Option String

-- A message to all clients.
pub record Notification : Type 0 where
  pub id : ℕ
  pub title : String
  pub description : String
  pub created_at : ℕ

pub record Category : Type 0 where
  pub id : ℕ
  pub name : String
  pub image_url : Option String

pub record Product : Type 0 where
  pub id : ℕ
  pub category_id : ℕ
  pub name : String
  pub price : ℤ
  pub image_url : Option String

-- Rows in the order of their ids, and the value of the table's sequence.
pub record Table {ℓ} (A : Type ℓ) : Type ℓ where
  pub rows : List A
  pub next_id : ℕ

-- `db.add` of a new row and its flush: the row gets the next id.
abbrev pub add_row {ℓ} : {A : Type ℓ} → (ℕ → A) → Table A → Table A
add_row make t = record { rows = t.rows ++ make t.next_id ∷ []; next_id = t.next_id + 1 }

pub record Database : Type 0 where
  pub users : Table User
  pub staff : Table Staff
  pub otp_codes : Table OtpCode
  pub auth_logs : Table AuthLog
  pub balances : List CashbackBalance
  pub transactions : Table CashbackTransaction
  pub jobs : JobTable
  pub notifications : Table UserNotification
  pub tokens : Table NotificationDeviceToken
  pub cards : Table Card
  pub broadcasts : Table Notification
  pub categories : Table Category
  pub products : Table Product
