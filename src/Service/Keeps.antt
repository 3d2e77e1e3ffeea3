-- ===== src/Service/Keeps.antt =====
-- Code that commits nothing: whatever it writes or raises, the committed database is untouched.
use sardoba_app_server.Prelude.{◌≡◌, refl, ◌∙◌, Bool, true, false, if◌then◌else◌}
use sardoba_app_server.Failure.{Failure, Outcome, ok, raised}
use sardoba_app_server.Models.{Database}
use sardoba_app_server.Service.{
  Session, Service, continue, ◌>>=◌, pure, raise, lift, query, write, unless, commit, request, ◌>>◌,
}

pub record Uncommitted {A : Type 0} (m : Service A) : Type 0 where
  pub at : (s : Session) → (m s).1.saved ≡ s.saved

module _ {A : Type 0} where
  pub Uncommitted-pure : (a : A) → Uncommitted (pure a)
  Uncommitted-pure a = record { at = λ s. refl }

  pub Uncommitted-raise : (e : Failure) → Uncommitted (raise {A = A} e)
  Uncommitted-raise e = record { at = λ s. refl }

  pub Uncommitted-lift : (r : Outcome A) → Uncommitted (lift r)
  Uncommitted-lift r = record { at = λ s. refl }

  pub Uncommitted-query : (f : Database → A) → Uncommitted (query f)
  Uncommitted-query f = record { at = λ s. refl }

  pub Uncommitted-if :
      (b : Bool) (m n : Service A)
      → Uncommitted m
      → Uncommitted n
      → Uncommitted (if b then m else n)
  Uncommitted-if true m n hm hn = hm
  Uncommitted-if false m n hm hn = hn

pub Uncommitted-write : (f : Database → Database) → Uncommitted (write f)
Uncommitted-write f = record { at = λ s. refl }

pub Uncommitted-unless : (b : Bool) (e : Failure) → Uncommitted (unless b e)
Uncommitted-unless true e = record { at = λ s. refl }
Uncommitted-unless false e = record { at = λ s. refl }

module _ {A B : Type 0} where
  Uncommitted-continue :
      (r : Outcome A) (f : A → Service B) (s : Session)
      → ((a : A) → Uncommitted (f a))
      → (continue r f s).1.saved ≡ s.saved
  Uncommitted-continue (ok a) f s h = (h a).at s
  Uncommitted-continue (raised e) f s h = refl

  rejected_continue :
      (r : Outcome A) (f : A → B) (s : Session) (e : Failure)
      → (continue r (λ a. commit >> pure (f a)) s).0 ≡ raised e
      → (continue r (λ a. commit >> pure (f a)) s).1.saved ≡ s.saved
  rejected_continue (ok a) f s e h = cc
  rejected_continue (raised e') f s e h = refl

  pub Uncommitted-bind :
      (m : Service A) (f : A → Service B)
      → Uncommitted m
      → ((a : A) → Uncommitted (f a))
      → Uncommitted (m >>= f)
  Uncommitted-bind m f hm hf = record {
    at = λ s. let (r, s') = m s in Uncommitted-continue r f s' hf ∙ hm.at s;
  }

  -- Code that commits at its end only: where it raises, nothing is committed.
  pub rejected-request :
      (m : Service A) (f : A → B) (db : Database) (e : Failure)
      → Uncommitted m
      → (request (m >>= λ a. commit >> pure (f a)) db).0 ≡ raised e
      → (request (m >>= λ a. commit >> pure (f a)) db).1 ≡ db
  rejected-request m f db e h r =
      let s : Session = record { work = db; saved = db } in
      let (r', s') = m s in rejected_continue r' f s' e r ∙ h.at s

  continue_ok :
      (r : Outcome A) (f : A → Service B) (s : Session) (b : B)
      → (continue r f s).0 ≡ ok b
      → (a : A) × (r ≡ ok a) × ((f a s).0 ≡ ok b)
  continue_ok (ok a) f s b h = (a, refl, h)
  continue_ok (raised e) f s b h = cc

  -- A chain that succeeds has succeeded at each step.
  pub bind_ok :
      (m : Service A) (f : A → Service B) (s : Session) (b : B)
      → ((m >>= f) s).0 ≡ ok b
      → (a : A) × ((m s).0 ≡ ok a) × ((f a (m s).1).0 ≡ ok b)
  bind_ok m f s b h = let (r, s') = m s in continue_ok r f s' b h
