-- ===== src/Service/Preserves.antt =====
-- Code that keeps a property of the session's work, whether it succeeds or raises.
use sardoba_app_server.Prelude.{Bool, true, false, if◌then◌else◌}
use sardoba_app_server.Failure.{Failure, Outcome, ok, raised}
use sardoba_app_server.Models.{Database}
use sardoba_app_server.Service.{
  Session, Service, continue, ◌>>=◌, pure, raise, lift, query, write, unless, commit,
}

pub record Preserves (P : Database → Type 0) {A : Type 0} (m : Service A) : Type 0 where
  pub at : (s : Session) → P s.work → P (m s).1.work

module _ (P : Database → Type 0) {A : Type 0} where
  pub Preserves-pure : (a : A) → Preserves P (pure a)
  Preserves-pure a = record { at = λ s h. h }

  pub Preserves-raise : (e : Failure) → Preserves P (raise {A = A} e)
  Preserves-raise e = record { at = λ s h. h }

  pub Preserves-lift : (r : Outcome A) → Preserves P (lift r)
  Preserves-lift r = record { at = λ s h. h }

  pub Preserves-query : (f : Database → A) → Preserves P (query f)
  Preserves-query f = record { at = λ s h. h }

  pub Preserves-if :
      (b : Bool) (m n : Service A)
      → Preserves P m
      → Preserves P n
      → Preserves P (if b then m else n)
  Preserves-if true m n hm hn = hm
  Preserves-if false m n hm hn = hn

module _ (P : Database → Type 0) where
  pub Preserves-write :
      (f : Database → Database) → ((db : Database) → P db → P (f db)) → Preserves P (write f)
  Preserves-write f h = record { at = λ s p. h s.work p }

  pub Preserves-commit : Preserves P commit
  Preserves-commit = record { at = λ s h. h }

  pub Preserves-unless : (b : Bool) (e : Failure) → Preserves P (unless b e)
  Preserves-unless true e = record { at = λ s h. h }
  Preserves-unless false e = record { at = λ s h. h }

module _ (P : Database → Type 0) {A B : Type 0} where
  Preserves-continue :
      (r : Outcome A) (f : A → Service B) (s : Session)
      → ((a : A) → Preserves P (f a))
      → P s.work
      → P (continue r f s).1.work
  Preserves-continue (ok a) f s h p = (h a).at s p
  Preserves-continue (raised e) f s h p = p

  pub Preserves-bind :
      (m : Service A) (f : A → Service B)
      → Preserves P m
      → ((a : A) → Preserves P (f a))
      → Preserves P (m >>= f)
  Preserves-bind m f hm hf = record {
    at = λ s p. let (r, s') = m s in Preserves-continue r f s' hf (hm.at s p);
  }

pub ruleset preserves_rules = (
  Preserves-pure, Preserves-raise, Preserves-lift, Preserves-query, Preserves-if, Preserves-commit,
  Preserves-unless, Preserves-bind,
)
