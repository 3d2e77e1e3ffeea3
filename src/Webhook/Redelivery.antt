-- ===== src/Webhook/Redelivery.antt =====
-- A second delivery of an event to app/routers/iiko_integration.py.
use sardoba_app_server.Prelude.{ℕ, ◌≡◌, refl, ap, String, true, Option, some, inl, inr, Bool-cases}
use sardoba_app_server.Prelude.Int.{ℤ}
use sardoba_app_server.Failure.{Outcome, ok, raised}
use sardoba_app_server.Models.{User, CashbackTransaction, Database}
use sardoba_app_server.Service.{Session, continue, request, pure}
use sardoba_app_server.Cashback.{TransactionType, adjust_cashback_balance, event_taken}
use sardoba_app_server.Cashback.Once.{refused_again}
use sardoba_app_server.Webhook.{
  is_zero, IikoWebhookPayload, valid, processed, read_body, locate_event, event_adjustment,
  reply_of, apply_event, iiko_webhook,
}
use sardoba_app_server.Webhook.Events.{locate_event-session, iiko_webhook-IsEvent}

abbrev fresh : Database → Session
fresh db = record { work = db; saved = db }

reply-session :
    (p : IikoWebhookPayload) (amount : Option ℤ)
    (out : Outcome (Option CashbackTransaction) × Session)
    → (continue out.0 (λ t. pure (reply_of p amount t)) out.1).1 ≡ out.1
reply-session p amount (ok t, s) = refl
reply-session p amount (raised e, s) = refl

refused_target :
    (show_amount : ℤ → String) (now : ℕ) (p : IikoWebhookPayload) (target : User × Option ℤ)
    (db : Database) (e : String)
    → p.id ≡ some e
    → event_taken (some e) db ≡ true
    → (apply_event show_amount now p target (fresh db)).1.saved ≡ db
unfolding apply_event
refused_target show_amount now p (user, amount) db e h taken = elim (Bool-cases (is_zero amount)) [
  | inl z ↦ rw z refl
  | inr z ↦
      let run = adjust_cashback_balance show_amount user (event_adjustment p amount) now in
      let again = refused_again show_amount user (event_adjustment p amount) now db e h taken in
      rw (z, reply-session p amount (run (fresh db))) (ap (λ r. r.1) again)
]

refused_outcome :
    (show_amount : ℤ → String) (now : ℕ) (p : IikoWebhookPayload)
    (out : Outcome (User × Option ℤ) × Session) (db : Database) (e : String)
    → p.id ≡ some e
    → event_taken (some e) db ≡ true
    → out.1 ≡ fresh db
    → (continue out.0 (λ target. apply_event show_amount now p target) out.1).1.saved ≡ db
refused_outcome show_amount now p (ok target, s) db e h taken same =
    rw same (refused_target show_amount now p target db e h taken)
refused_outcome show_amount now p (raised f, s) db e h taken same = ap (λ s. s.saved) same

redelivered :
    (show_amount : ℤ → String) (now : ℕ) (p : IikoWebhookPayload) (db : Database) (e : String)
    → p.id ≡ some e
    → event_taken (some e) db ≡ true
    → (request (iiko_webhook show_amount now (valid p)) db).1 ≡ db
unfolding iiko_webhook read_body
redelivered show_amount now p db e h taken =
    refused_outcome show_amount now p (locate_event p (fresh db)) db e h taken
      (locate_event-session p (fresh db))

-- An event is processed once: after a request that answered it as processed, a later one with the same event
-- id, whatever else it says and whatever it is answered, leaves the database as it is.
pub iiko_webhook_once :
    (show_amount : ℤ → String) (now later : ℕ) (p q : IikoWebhookPayload) (answer : Option ℤ)
    (id : ℕ) (type : TransactionType) (db : Database) (e : String)
    → p.id ≡ some e
    → q.id ≡ some e
    → (request (iiko_webhook show_amount now (valid p)) db).0 ≡ ok (processed id type answer)
    → let db' = (request (iiko_webhook show_amount now (valid p)) db).1 in
      (request (iiko_webhook show_amount later (valid q)) db').1 ≡ db'
iiko_webhook_once show_amount now later p q answer id type db e h k first_ =
    let event = iiko_webhook-IsEvent show_amount now p answer id type db first_ in
    redelivered show_amount later q _ e k (event.recorded e h)
