-- ===== src/Service.antt =====
-- Sessions and the code that runs in one: app/core/db.py. A session sees its own flushed writes and
-- keeps what is committed; closing it drops the rest, as `get_db_session` does at the end of a request.
pub mod Keeps
pub mod Preserves
use sardoba_app_server.Prelude.{◌≡◌, refl, Bool, true, false, if◌then◌else◌}
use sardoba_app_server.Failure.{Failure, Outcome, ok, raised}
use sardoba_app_server.Models.{Database}

pub record Session : Type 0 where
  pub work : Database
  pub saved : Database

-- What was written before a raise stays in the session, so the session comes back with the error too.
abbrev pub Service : Type 0 → Type 0
Service A = Session → Outcome A × Session

abbrev pub continue : {A B : Type 0} → Outcome A → (A → Service B) → Service B
continue (ok a) f s = f a s
continue (raised e) f s = (raised e, s)

infixl 10 ◌>>=◌ ◌>>◌
abbrev pub ◌>>=◌ : {A B : Type 0} → Service A → (A → Service B) → Service B
◌>>=◌ m f s = let (r, s') = m s in continue r f s'

abbrev pub ◌>>◌ : {A B : Type 0} → Service A → Service B → Service B
m >> n = m >>= λ _. n

abbrev pub pure : {A : Type 0} → A → Service A
pure a s = (ok a, s)

abbrev pub raise : {A : Type 0} → Failure → Service A
raise e s = (raised e, s)

abbrev pub lift : {A : Type 0} → Outcome A → Service A
lift r s = (r, s)

abbrev pub query : {A : Type 0} → (Database → A) → Service A
query f s = (ok (f s.work), s)

-- Writes and their flush.
abbrev pub write : (Database → Database) → Service (Unit {0})
write f s = (ok tt, record s { work = f s.work })

abbrev pub commit : Service (Unit {0})
commit s = (ok tt, record s { saved = s.work })

abbrev pub rollback : Service (Unit {0})
rollback s = (ok tt, record s { work = s.saved })

abbrev pub unless : Bool → Failure → Service (Unit {0})
unless true e s = (ok tt, s)
unless false e s = (raised e, s)

-- One request: it starts from the committed database and leaves what it has committed.
abbrev pub request : {A : Type 0} → Service A → Database → Outcome A × Database
request m db = let (r, s) = m (record { work = db; saved = db }) in (r, s.saved)
