-- ===== src/Cards/Untouched.antt =====
-- app/services/card_service.py writes cards only.
use sardoba_app_server.Prelude.{ℕ, String, Option, none, some, List, [], ◌∷◌}
use sardoba_app_server.Text.{join}
use sardoba_app_server.Models.{Card, Table, Database}
use sardoba_app_server.Service.Preserves.{
  Preserves, preserves_rules, Preserves-write, Preserves-bind, Preserves-query, Preserves-if,
  Preserves-pure,
}
use sardoba_app_server.Cards.{
  card_number_prefix, Draws, IikoCard, generate_card_number, generate_card_track, insert_card,
  create_card_for_user, renew_card, put_card, store_card, ensure_card_from_iiko,
}

-- A property that does not look at the cards is kept.
module _ (P : Database → Type 0)
    (keep : (db : Database) (t : Table Card) → P db → P (record db { cards = t })) where
  insert_card-keeps :
      (user_id : ℕ) (number track : String) (iiko : Option String)
      → Preserves P (insert_card user_id number track iiko)
  unfolding insert_card
  insert_card-keeps user_id number track iiko =
      search (preserves_rules, Preserves-write, keep) depth 12

  renew_card-keeps :
      (card : Card) (track : String) (iiko : Option String)
      → Preserves P (renew_card card track iiko)
  unfolding renew_card
  renew_card-keeps card track iiko = search (preserves_rules, Preserves-write, keep) depth 12

  put_card-keeps :
      (user_id : ℕ) (number track : String) (iiko : Option String) (found : Option Card)
      → Preserves P (put_card user_id number track iiko found)
  unfolding put_card
  put_card-keeps user_id number track iiko none = search (preserves_rules, insert_card-keeps)
  put_card-keeps user_id number track iiko (some card) = renew_card-keeps card track iiko

  store_card-keeps :
      (user_id : ℕ) (number track : String) (iiko : Option String)
      → Preserves P (store_card user_id number track iiko)
  unfolding store_card
  store_card-keeps user_id number track iiko = search (preserves_rules, put_card-keeps)

  pub ensure_card_from_iiko-keeps :
      (user_id : ℕ) (c : IikoCard) → Preserves P (ensure_card_from_iiko user_id c)
  unfolding ensure_card_from_iiko
  ensure_card_from_iiko-keeps user_id c = search (preserves_rules, store_card-keeps) depth 9

  generate_card_number-keeps :
      (suffixes : List String) → Preserves P (generate_card_number suffixes)
  unfolding generate_card_number
  generate_card_number-keeps [] = search preserves_rules
  generate_card_number-keeps (x ∷ xs) = Preserves-bind P _ _ (Preserves-query P _) (λ exists.
      Preserves-if P exists _ _ (generate_card_number-keeps xs)
        (Preserves-pure P (join card_number_prefix x)))

  generate_card_track-keeps : (tracks : List String) → Preserves P (generate_card_track tracks)
  unfolding generate_card_track
  generate_card_track-keeps [] = search preserves_rules
  generate_card_track-keeps (x ∷ xs) =
      Preserves-bind P _ _ (Preserves-query P _)
        (λ exists. Preserves-if P exists _ _ (generate_card_track-keeps xs) (Preserves-pure P x))

  pub create_card_for_user-keeps :
      (d : Draws) (user_id : ℕ) (iiko : Option String)
      → Preserves P (create_card_for_user d user_id iiko)
  unfolding create_card_for_user
  create_card_for_user-keeps d user_id iiko =
      search
        (preserves_rules, generate_card_number-keeps, generate_card_track-keeps, insert_card-keeps)
        depth 9
