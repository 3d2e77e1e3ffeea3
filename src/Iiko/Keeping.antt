-- ===== src/Iiko/Keeping.antt =====
-- Code that calls iiko and keeps a property of the session's work, whatever iiko answers.
use sardoba_app_server.Prelude.{Bool, true, false, if◌then◌else◌, inl, inr, Bool-cases}
use sardoba_app_server.Failure.{Failure, Outcome, ok, raised, is_service_error}
use sardoba_app_server.Models.{Database}
use sardoba_app_server.Service.{Service}
use sardoba_app_server.Service.Preserves.{Preserves}
use sardoba_app_server.Iiko.{World, Sync, proceed, ◌>>=◌, pure, raise, local, call, handle, recover}

pub record Keeps (P : Database → Type 0) {R A : Type 0} (m : Sync R A) : Type 0 where
  pub at : (w : World R) → P w.session.work → P (m w).1.session.work

module _ (P : Database → Type 0) {R A : Type 0} where
  pub Keeps-pure : (a : A) → Keeps P (pure {R = R} a)
  Keeps-pure a = record { at = λ w h. h }

  pub Keeps-raise : (e : Failure) → Keeps P (raise {R = R} {A = A} e)
  Keeps-raise e = record { at = λ w h. h }

  pub Keeps-local : (m : Service A) → Preserves P m → Keeps P (local {R = R} m)
  Keeps-local m h = record { at = λ w p. h.at w.session p }

  pub Keeps-call : (f : R → Outcome A × R) → Keeps P (call f)
  Keeps-call f = record { at = λ w h. h }

  pub Keeps-if : (b : Bool) (m n : Sync R A) → Keeps P m → Keeps P n → Keeps P (if b then m else n)
  Keeps-if true m n hm hn = hm
  Keeps-if false m n hm hn = hn

  Keeps-handle :
      (r : Outcome A) (h : Failure → Sync R A) (w : World R)
      → ((e : Failure) → Keeps P (h e))
      → P w.session.work
      → P (handle r h w).1.session.work
  Keeps-handle (ok a) h w k p = p
  Keeps-handle (raised e) h w k p = elim (Bool-cases (is_service_error e)) [
    | inl caught ↦ rw caught ((k e).at w p)
    | inr passed ↦ rw passed p
  ]

  pub Keeps-recover :
      (m : Sync R A) (h : Failure → Sync R A)
      → Keeps P m
      → ((e : Failure) → Keeps P (h e))
      → Keeps P (recover m h)
  Keeps-recover m h km kh = record {
    at = λ w p. let (r, w') = m w in Keeps-handle r h w' kh (km.at w p);
  }

module _ (P : Database → Type 0) {R A B : Type 0} where
  Keeps-proceed :
      (r : Outcome A) (f : A → Sync R B) (w : World R)
      → ((a : A) → Keeps P (f a))
      → P w.session.work
      → P (proceed r f w).1.session.work
  Keeps-proceed (ok a) f w k p = (k a).at w p
  Keeps-proceed (raised e) f w k p = p

  pub Keeps-bind :
      (m : Sync R A) (f : A → Sync R B) → Keeps P m → ((a : A) → Keeps P (f a)) → Keeps P (m >>= f)
  Keeps-bind m f km kf = record {
    at = λ w p. let (r, w') = m w in Keeps-proceed r f w' kf (km.at w p);
  }

pub ruleset keeps_rules =
    (Keeps-pure, Keeps-raise, Keeps-local, Keeps-call, Keeps-if, Keeps-recover, Keeps-bind)
