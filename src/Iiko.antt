-- ===== src/Iiko.antt =====
-- The iiko loyalty API as app/services/auth_service.py calls it, and code that runs in a session and
-- calls it. What the remote side does is an argument: a state of any type and three operations. Ids,
-- emails and the texts on cards are texts in its answers, as its documentation has it; an empty answer
-- `{}`, which every caller treats as None, stands as `none`.
pub mod Reading
pub mod Payload
pub mod Keeping
use sardoba_app_server.Prelude.{
  ℕ, String, Bool, true, false, Option, none, some, List, if◌then◌else◌,
}
use sardoba_app_server.Prelude.Int.{ℤ}
use sardoba_app_server.Prelude.Dict.{Dict}
use sardoba_app_server.Json.{Json}
use sardoba_app_server.Failure.{Failure, Outcome, ok, raised, is_service_error}
use sardoba_app_server.Cards.{IikoCard}
use sardoba_app_server.Service.{Session, Service}

pub record IikoWallet : Type 0 where
  pub id : Option String
  pub wallet_id : Option String
  pub fields : Dict Json

-- `fields` are the members of the answer beside the ids, the email, the wallets and the cards.
pub record IikoCustomer : Type 0 where
  pub id : Option String
  pub customer_id : Option String
  pub email : Option String
  pub wallets : List IikoWallet
  pub cards : List IikoCard
  pub fields : Dict Json

pub record IikoApi (R : Type 0) : Type 0 where
  pub get_customer_by_phone : String → R → Outcome (Option IikoCustomer) × R
  pub create_or_update_customer : String → Dict Json → R → Outcome (Option IikoCustomer) × R
  -- the id of the card, if the answer has one
  pub add_card : String → String → String → R → Outcome (Option String) × R

-- Python's str, str.lower, Decimal of a text (in hundredths), strptime, fromisoformat and strftime.
pub record Readers : Type 0 where
  pub str_of : Json → String
  pub lower : String → String
  pub decimal : String → Option ℤ
  pub strptime : String → String → Option ℕ
  pub fromisoformat : String → Option ℕ
  pub strftime : ℕ → String

-- `cards_loaded` is whether `user.cards` has any, once it has been read: the list is not read again.
pub record World (R : Type 0) : Type 0 where
  pub remote : R
  pub session : Session
  pub cards_loaded : Option Bool

abbrev pub Sync : Type 0 → Type 0 → Type 0
Sync R A = World R → Outcome A × World R

abbrev pub proceed : {R A B : Type 0} → Outcome A → (A → Sync R B) → Sync R B
proceed (ok a) f w = f a w
proceed (raised e) f w = (raised e, w)

infixl 10 ◌>>=◌ ◌>>◌
abbrev pub ◌>>=◌ : {R A B : Type 0} → Sync R A → (A → Sync R B) → Sync R B
◌>>=◌ m f w = let (r, w') = m w in proceed r f w'

abbrev pub ◌>>◌ : {R A B : Type 0} → Sync R A → Sync R B → Sync R B
m >> n = m >>= λ _. n

abbrev pub pure : {R A : Type 0} → A → Sync R A
pure a w = (ok a, w)

abbrev pub raise : {R A : Type 0} → Failure → Sync R A
raise e w = (raised e, w)

-- Code of a session.
abbrev pub local : {R A : Type 0} → Service A → Sync R A
local m w = let (r, s) = m w.session in (r, record w { session = s })

-- A call of the API.
abbrev pub call : {R A : Type 0} → (R → Outcome A × R) → Sync R A
call f w = let (r, remote) = f w.remote in (r, record w { remote = remote })

abbrev pub handle : {R A : Type 0} → Outcome A → (Failure → Sync R A) → Sync R A
handle (ok a) h w = (ok a, w)
handle (raised e) h w = if is_service_error e then h e w else (raised e, w)

-- try … except ServiceError
abbrev pub recover : {R A : Type 0} → Sync R A → (Failure → Sync R A) → Sync R A
recover m h w = let (r, w') = m w in handle r h w'
