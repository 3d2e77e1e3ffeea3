-- ===== src/Webhook/Events.antt =====
-- What an event does to the ledger, and a second delivery of it.
use sardoba_app_server.Prelude.{
  ℕ, ◌≡◌, refl, ap, subst, sym, ◌∙◌, String, true, Option, none, some, inl, inr, Bool-cases, ◌==◌,
  if◌then◌else◌, arith,
}
use sardoba_app_server.Prelude.Int.{ℤ, pos, neg, abs, ◌+ℤ◌, ◌-ℤ◌, ◌≤ℤ◌}
use sardoba_app_server.Failure.{Outcome, ok, raised}
use sardoba_app_server.Models.{User, CashbackTransaction, Database}
use sardoba_app_server.Service.{Session, continue, request, pure}
use sardoba_app_server.Service.Keeps.{bind_ok}
use sardoba_app_server.Cashback.{
  TransactionType, accrual, pay_from_wallet, correction, refill_wallet, refill_wallet_from_order,
  simple_push, welcome_bonus, adjust_cashback_balance, cashback_balance, new_balance, event_taken,
}
use sardoba_app_server.Cashback.Acceptance.{balance_after-due}
use sardoba_app_server.Cashback.Change.{balance_after}
use sardoba_app_server.Cashback.Adjust.{adjust-Settled, IsApplied}
use sardoba_app_server.Cashback.Once.{taken_after}
use sardoba_app_server.Webhook.{
  IikoWebhookPayload, is_zero, valid, processed, signed_sum, determine_amount,
  find_user_for_identifiers, read_body, locate_event, event_adjustment, reply_of, apply_event,
  iiko_webhook,
}

-- Looking up the user and the amount changes nothing.
pub locate_event-session : (p : IikoWebhookPayload) (s : Session) → (locate_event p s).1 ≡ s
unfolding locate_event
locate_event-session p s = ground arith

pay_signed : (a current : ℤ) → current -ℤ abs (neg (abs a)) ≡ current +ℤ neg (abs a)
unfolding ◌-ℤ◌ ◌+ℤ◌
pay_signed a current = ground arith

-- The sign of an amount: what is paid is not positive, and an accrual not negative.
abbrev pub HasSign : TransactionType → ℤ → Type 0
HasSign accrual a = pos 0 ≤ℤ a
HasSign pay_from_wallet a = a ≤ℤ pos 0
HasSign _ a = Unit

signed :
    (type : TransactionType) (sum : Option ℤ) (amount current : ℤ)
    → signed_sum type sum ≡ ok (some amount)
    → (new_balance type none current amount ≡ current +ℤ amount) × HasSign type amount
unfolding new_balance
signed accrual (some raw) amount current h =
    let same : abs raw ≡ amount = cc in (refl, subst (λ a. pos 0 ≤ℤ a) same (omega arith))
signed accrual none amount current h = cc
signed pay_from_wallet none amount current h = cc
signed pay_from_wallet (some raw) amount current h =
    let same : neg (abs raw) ≡ amount = cc in
    subst (λ a. (current -ℤ abs a ≡ current +ℤ a) × (a ≤ℤ pos 0)) same
      (pay_signed raw current, ground arith)
signed correction sum amount current h = (refl, tt)
signed refill_wallet sum amount current h = (refl, tt)
signed refill_wallet_from_order sum amount current h = (refl, tt)
signed simple_push sum amount current h = (refl, tt)
signed welcome_bonus sum amount current h = (refl, tt)

located :
    (p : IikoWebhookPayload) (user : User) (amount : Option ℤ) (s : Session)
    → (locate_event p s).0 ≡ ok (user, amount)
    → (find_user_for_identifiers p.customer_id p.phone s.work ≡ some user)
      × (determine_amount p ≡ ok amount)
unfolding locate_event
located p user amount s h = (ground arith, ground arith)

-- An event that was applied: its user, its amount, the balances after it, and that it is on record.
pub record IsEvent (p : IikoWebhookPayload) (answer : Option ℤ) (before after : Database)
    : Type 0 where
  pub user : User
  pub amount : ℤ
  pub found : find_user_for_identifiers p.customer_id p.phone before ≡ some user
  pub answered : answer ≡ some amount
  pub sign : HasSign p.transaction_type amount
  pub balances :
      (j : ℕ)
      → cashback_balance j after ≡ (
          if user.id == j
          then (elim p.balance [ none ↦ cashback_balance user.id before +ℤ amount | some b ↦ b ])
          else cashback_balance j before)
  pub recorded : (e : String) → p.id ≡ some e → event_taken (some e) after ≡ true

after_event :
    (p : IikoWebhookPayload) (balance : Option ℤ) (amount current : ℤ)
    → determine_amount p ≡ ok (some amount)
    → new_balance p.transaction_type balance current amount
      ≡ (elim balance [ none ↦ current +ℤ amount | some b ↦ b ])
unfolding determine_amount new_balance
after_event p none amount current h = (signed p.transaction_type p.sum amount current h).0
after_event p (some b) amount current h = refl

replied :
    (p : IikoWebhookPayload) (amount answer : Option ℤ) (id : ℕ) (type : TransactionType)
    (out : Outcome (Option CashbackTransaction) × Session)
    → (continue out.0 (λ t. pure (reply_of p amount t)) out.1).0 ≡ ok (processed id type answer)
    → ((t : CashbackTransaction) × (out.0 ≡ ok (some t)))
      × (answer ≡ amount)
      × ((continue out.0 (λ t. pure (reply_of p amount t)) out.1).1 ≡ out.1)
unfolding reply_of
replied p amount answer id type (ok none, s) h = cc
replied p amount answer id type (ok (some t), s) h = ((t, refl), cc, refl)
replied p amount answer id type (raised e, s) h = cc

-- The adjustment behind an event that was processed.
applied :
    (show_amount : ℤ → String) (now : ℕ) (p : IikoWebhookPayload) (user : User)
    (amount answer : Option ℤ) (id : ℕ) (type : TransactionType) (s : Session)
    → (apply_event show_amount now p (user, amount) s).0 ≡ ok (processed id type answer)
    → ((t : CashbackTransaction) × ((adjust_cashback_balance show_amount user
            (event_adjustment p amount)
            now
            s).0
          ≡ ok (some t)))
      × (answer ≡ amount)
      × ((apply_event show_amount now p (user, amount) s).1
          ≡ (adjust_cashback_balance show_amount user (event_adjustment p amount) now s).1)
unfolding apply_event reply_of
applied show_amount now p user amount answer id type s h = elim (Bool-cases (is_zero amount)) [
  | inl e ↦ cc (rw e at h)
  | inr e ↦ rw e (
      replied p amount answer id type
        (adjust_cashback_balance show_amount user (event_adjustment p amount) now s) (rw e at h))
]

adjusted :
    (show_amount : ℤ → String) (now : ℕ) (p : IikoWebhookPayload) (user : User) (amount : Option ℤ)
    (t : CashbackTransaction) (s : Session)
    → (adjust_cashback_balance show_amount user (event_adjustment p amount) now s).0 ≡ ok (some t)
    → (a : ℤ) × (amount ≡ some a)
      × IsApplied user
          (event_adjustment p amount)
          a
          (balance_after user (event_adjustment p amount) a s.work)
          now
          s.work
          (adjust_cashback_balance show_amount user (event_adjustment p amount) now s).1.saved
adjusted show_amount now p user amount t s h =
    let after =
      (adjust_cashback_balance show_amount user (event_adjustment p amount) now s).1.saved in
    elim (adjust-Settled show_amount user (event_adjustment p amount) now s) [
      | inl (nothing, same, why) ↦ cc
      | inr (a, given, push, fine, answer, done) ↦ (
        a,
        given,
        subst (λ v. IsApplied user (event_adjustment p amount) a v now s.work after)
            (sym (balance_after-due user (event_adjustment p amount) a s.work)) done,
      )
    ]

applied-IsEvent :
    (p : IikoWebhookPayload) (user : User) (a : ℤ) (answer amount : Option ℤ) (now : ℕ)
    (before after : Database)
    → find_user_for_identifiers p.customer_id p.phone before ≡ some user
    → determine_amount p ≡ ok amount
    → amount ≡ some a
    → answer ≡ amount
    → IsApplied user
        (event_adjustment p amount)
        a
        (balance_after user (event_adjustment p amount) a before)
        now
        before
        after
    → IsEvent p answer before after
unfolding determine_amount
applied-IsEvent p user a answer amount now before after found determined given same done =
    let read : determine_amount p ≡ ok (some a) = determined ∙ ap ok given in
    record {
      user = user;
      amount = a;
      found = found;
      answered = same ∙ given;
      sign = (signed p.transaction_type p.sum a (cashback_balance user.id before) read).1;
      balances = λ j.
          rw (after_event p p.balance a (cashback_balance user.id before) read) at
            (done.balances j);
      recorded = λ e h. taken_after user (event_adjustment p amount) a _ now before after e h done;
    }

apply_event-IsEvent :
    (show_amount : ℤ → String) (now : ℕ) (p : IikoWebhookPayload) (user : User)
    (amount answer : Option ℤ) (id : ℕ) (type : TransactionType) (s : Session)
    → find_user_for_identifiers p.customer_id p.phone s.work ≡ some user
    → determine_amount p ≡ ok amount
    → (apply_event show_amount now p (user, amount) s).0 ≡ ok (processed id type answer)
    → IsEvent p answer s.work (apply_event show_amount now p (user, amount) s).1.saved
apply_event-IsEvent show_amount now p user amount answer id type s found determined h =
    let ((t, adjusted_), same, session) =
      applied show_amount now p user amount answer id type s h in
    let (a, given, done) = adjusted show_amount now p user amount t s adjusted_ in
    rw session
      (applied-IsEvent p user a answer amount now s.work _ found determined given same done)

webhook_from :
    (show_amount : ℤ → String) (now : ℕ) (p : IikoWebhookPayload) (user : User)
    (amount answer : Option ℤ) (id : ℕ) (type : TransactionType) (s : Session)
    → (locate_event p s).0 ≡ ok (user, amount)
    → (apply_event show_amount now p (user, amount) (locate_event p s).1).0
      ≡ ok (processed id type answer)
    → IsEvent p answer s.work (iiko_webhook show_amount now (valid p) s).1.saved
unfolding iiko_webhook read_body
webhook_from show_amount now p user amount answer id type s here rest =
    let (found, determined) = located p user amount s here in
    rw (here, locate_event-session p s)
      (apply_event-IsEvent show_amount now p user amount answer id type s found determined
        (rw (locate_event-session p s) at rest))

pub iiko_webhook-IsEvent :
    (show_amount : ℤ → String) (now : ℕ) (p : IikoWebhookPayload) (answer : Option ℤ) (id : ℕ)
    (type : TransactionType) (db : Database)
    → (request (iiko_webhook show_amount now (valid p)) db).0 ≡ ok (processed id type answer)
    → IsEvent p answer db (request (iiko_webhook show_amount now (valid p)) db).1
unfolding iiko_webhook read_body
iiko_webhook-IsEvent show_amount now p answer id type db h =
    let s : Session = record { work = db; saved = db } in
    let ((user, amount), here, rest) = bind_ok (locate_event p) _ s (processed id type answer) h in
    webhook_from show_amount now p user amount answer id type s here rest
