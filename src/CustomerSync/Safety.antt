-- ===== src/CustomerSync/Safety.antt =====
-- What a whole synchronisation keeps: app/services/auth_service.py.
use sardoba_app_server.Prelude.{ℕ, ◌≡◌, Bool, some}
use sardoba_app_server.Models.{User}
use sardoba_app_server.Cards.{Draws}
use sardoba_app_server.Iiko.{IikoApi, Readers, World}
use sardoba_app_server.Customer.{user_by_id}
use sardoba_app_server.Customer.Profile.{Holds, Holds-IsKept, Kept-refl}
use sardoba_app_server.CustomerSync.{sync_user_from_iiko}
use sardoba_app_server.CustomerSync.Keeping.{sync-Keeps}

module _ {R : Type 0} (api : IikoApi R) (readers : Readers) (draws : ℕ → Draws) where
  -- Whatever iiko answers, in a run of any kind that may succeed, fail or raise, the user's row is still
  -- there afterwards, with the phone, the level, the waiter and the marks that it had, and with each
  -- name, email, gender and date of birth that was not empty.
  pub sync-Holds :
      (acquired create_if_missing : Bool) (attempts : ℕ) (admin : Bool) (u : User) (w : World R)
      → user_by_id u.id w.session.work ≡ some u
      → let (r, w') =
          sync_user_from_iiko api readers draws acquired create_if_missing attempts admin u.id w in
        Holds u w'.session.work.users
  unfolding user_by_id
  sync-Holds acquired create_if_missing attempts admin u w e =
      (sync-Keeps api readers draws u.id (Holds u) (Holds-IsKept readers u) acquired
          create_if_missing attempts admin).at
        w (u, e, Kept-refl u)
