-- ===== src/Deletion/Gone.antt =====
-- What is left of a user after `delete_user` of app/services/user_service.py.
use sardoba_app_server.Prelude.{
  ℕ, ◌≡◌, refl, String, Bool, true, false, some, List, [], ◌∷◌, arith, inl, inr, Bool-cases, ◌==◌,
  count, first, update_rows, ap, ◌∙◌, subst, sym,
}
use sardoba_app_server.Prelude.Selection.{first-kept, count-removed}
use sardoba_app_server.Failure.{Failure, Outcome, ok, raised}
use sardoba_app_server.Models.{User, Database}
use sardoba_app_server.Service.{Session, continue, commit, request}
use sardoba_app_server.Service.Keeps.{Uncommitted, rejected-request}
use sardoba_app_server.Otp.Commits.{flush_rules}
use sardoba_app_server.Deletion.{
  generate_deleted_phone, remove_user, mark_deleted, enqueue_deletion, erase_user, prepare_deletion,
  delete_user,
}

-- No row of the user is left, and the row of every other user and every other balance is as it was.
pub record IsGone (id other : ℕ) (before after : Database) : Type 0 where
  pub user : count (λ u. u.id == id) after.users.rows ≡ 0
  pub balance : count (λ b. b.user_id == id) after.balances ≡ 0
  pub transactions : count (λ t. t.user_id == id) after.transactions.rows ≡ 0
  pub notifications : count (λ n. n.user_id == id) after.notifications.rows ≡ 0
  pub tokens : count (λ t. t.user_id == id) after.tokens.rows ≡ 0
  pub cards : count (λ c. c.user_id == id) after.cards.rows ≡ 0
  pub other_user :
      first (λ u. u.id == other) after.users.rows ≡ first (λ u. u.id == other) before.users.rows
  pub other_balance :
      first (λ b. b.user_id == other) after.balances
      ≡ first (λ b. b.user_id == other) before.balances

remove_user-IsGone :
    (id other : ℕ) (db : Database) → (id == other) ≡ false → IsGone id other db (remove_user id db)
unfolding remove_user
remove_user-IsGone id other db h = record {
  user = count-removed (λ u. u.id == id) db.users.rows;
  balance = count-removed (λ b. b.user_id == id) db.balances;
  transactions = count-removed (λ t. t.user_id == id) db.transactions.rows;
  notifications = count-removed (λ n. n.user_id == id) db.notifications.rows;
  tokens = count-removed (λ t. t.user_id == id) db.tokens.rows;
  cards = count-removed (λ c. c.user_id == id) db.cards.rows;
  other_user =
      first-kept (λ u. u.id == id) (λ u. u.id == other) (λ u e. ground arith) db.users.rows;
  other_balance =
      first-kept (λ b. b.user_id == id) (λ b. b.user_id == other) (λ b e. ground arith) db.balances;
}

generate-session :
    (candidates : List String) (s : Session) → (generate_deleted_phone candidates s).1 ≡ s
unfolding generate_deleted_phone
generate-session [] s = refl
generate-session (c ∷ cs) s = ground (arith, generate-session cs s)

generate-Uncommitted : (candidates : List String) → Uncommitted (generate_deleted_phone candidates)
generate-Uncommitted candidates = record {
  at = λ s. ap (λ x. x.saved) (generate-session candidates s);
}

erase-Uncommitted :
    (now : ℕ) (notify : Bool) (user : User) (fake_phone : String)
    → Uncommitted (erase_user now notify user fake_phone)
unfolding erase_user
erase-Uncommitted now notify user fake_phone = search flush_rules depth 9

prepare-Uncommitted :
    (candidates : List String) (now : ℕ) (notify : Bool) (user : User)
    → Uncommitted (prepare_deletion candidates now notify user)
unfolding prepare_deletion
prepare-Uncommitted candidates now notify user =
    search (flush_rules, generate-Uncommitted, erase-Uncommitted) depth 12

-- A deletion that fails, since no free phone was found, leaves the database as it was.
pub delete_user_refused :
    (candidates : List String) (now : ℕ) (notify : Bool) (user : User) (db : Database) (e : Failure)
    → (request (delete_user candidates now notify user) db).0 ≡ raised e
    → (request (delete_user candidates now notify user) db).1 ≡ db
unfolding delete_user
delete_user_refused candidates now notify user db e h =
    rejected-request (prepare_deletion candidates now notify user) (λ _. tt) db e
      (prepare-Uncommitted candidates now notify user) h

-- Others are seen as before by what precedes the removal.
erased-IsGone :
    (id other : ℕ) (db marked : Database)
    → (id == other) ≡ false
    → first (λ u. u.id == other) marked.users.rows ≡ first (λ u. u.id == other) db.users.rows
    → marked.balances ≡ db.balances
    → IsGone id other db (remove_user id marked)
erased-IsGone id other db marked h users balances =
    let gone = remove_user-IsGone id other marked h in
    record {
      user = gone.user;
      balance = gone.balance;
      transactions = gone.transactions;
      notifications = gone.notifications;
      tokens = gone.tokens;
      cards = gone.cards;
      other_user = gone.other_user ∙ users;
      other_balance = gone.other_balance ∙ ap (first (λ b. b.user_id == other)) balances;
    }

marked_other :
    (id other : ℕ) (fake_phone : String) (now : ℕ) (us : List User)
    → (id == other) ≡ false
    → first
        (λ u. u.id == other)
        (update_rows
          (λ u. u.id == id)
          (λ u. record u { phone = fake_phone; is_deleted = true; deleted_at = some now })
          us)
      ≡ first (λ u. u.id == other) us
unfolding first update_rows
marked_other id other fake_phone now [] h = refl
marked_other id other fake_phone now (u ∷ us) h =
    ground (arith, marked_other id other fake_phone now us h)

erase_user-IsGone :
    (now : ℕ) (notify : Bool) (user : User) (fake_phone : String) (other : ℕ) (s : Session)
    → (user.id == other) ≡ false
    → IsGone user.id other s.work (erase_user now notify user fake_phone s).1.work
unfolding erase_user mark_deleted enqueue_deletion
erase_user-IsGone now true user fake_phone other s h =
    erased-IsGone user.id other s.work _ h
      (marked_other user.id other fake_phone now s.work.users.rows h) refl
erase_user-IsGone now false user fake_phone other s h =
    erased-IsGone user.id other s.work _ h
      (marked_other user.id other fake_phone now s.work.users.rows h) refl

found_phone :
    (now : ℕ) (notify : Bool) (user : User) (other : ℕ) (db : Database)
    (out : Outcome String × Session)
    → (user.id == other) ≡ false
    → out.1 ≡ record { work = db; saved = db }
    → (continue out.0 (λ phone. erase_user now notify user phone) out.1).0 ≡ ok tt
    → IsGone user.id other db
        (continue out.0 (λ phone. erase_user now notify user phone) out.1).1.work
found_phone now notify user other db (ok phone, s) h same e =
    rw same (erase_user-IsGone now notify user phone other (record { work = db; saved = db }) h)
found_phone now notify user other db (raised f, s) h same e = cc

prepared-IsGone :
    (candidates : List String) (now : ℕ) (notify : Bool) (user : User) (other : ℕ) (db : Database)
    → (user.id == other) ≡ false
    → (prepare_deletion candidates now notify user (record { work = db; saved = db })).0 ≡ ok tt
    → IsGone user.id other db
        (prepare_deletion candidates now notify user (record { work = db; saved = db })).1.work
unfolding prepare_deletion
prepared-IsGone candidates now notify user other db h e =
    let s : Session = record { work = db; saved = db } in
    elim (Bool-cases user.is_deleted) [
      | inl d ↦ rw d (remove_user-IsGone user.id other db h)
      | inr d ↦ rw d (
          found_phone now notify user other db (generate_deleted_phone candidates s) h
            (generate-session candidates s) (rw d at e))
    ]

committed_work :
    (out : Outcome (Unit {0}) × Session)
    → (continue out.0 (λ _. commit) out.1).0 ≡ ok tt
    → (out.0 ≡ ok tt) × ((continue out.0 (λ _. commit) out.1).1.saved ≡ out.1.work)
committed_work (ok tt, s) e = (refl, refl)
committed_work (raised f, s) e = cc

-- After a deletion that succeeds the database holds no row of the user, no balance, transaction, notification,
-- token or card of the user, and the row and the balance of every other user as they were. So the row is
-- deleted, not marked as deleted, and there is nothing left of it to restore.
pub delete_user-IsGone :
    (candidates : List String) (now : ℕ) (notify : Bool) (user : User) (other : ℕ) (db : Database)
    → (user.id == other) ≡ false
    → (request (delete_user candidates now notify user) db).0 ≡ ok tt
    → IsGone user.id other db (request (delete_user candidates now notify user) db).1
unfolding delete_user
delete_user-IsGone candidates now notify user other db h e =
    let s : Session = record { work = db; saved = db } in
    let (done, same) = committed_work (prepare_deletion candidates now notify user s) e in
    subst (IsGone user.id other db) (sym same)
      (prepared-IsGone candidates now notify user other db h done)
