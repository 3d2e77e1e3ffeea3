-- ===== src/Cards/Tests.antt =====
-- Cards at concrete databases.
use sardoba_app_server.Prelude.{◌≡◌, refl, String, none, [], ◌∷◌, count}
use sardoba_app_server.Text.{join}
use sardoba_app_server.Failure.{ok}
use sardoba_app_server.Samples.{database_of, session_of}
use sardoba_app_server.Models.{Card, Database, add_row}
use sardoba_app_server.Cards.{
  Draws, card_number_prefix, card_row, has_number, has_track, create_card_for_user,
}
use sardoba_app_server.Cards.Drawing.{create_card_for_user_lem}

abbrev issued : Card
issued = record {
  id = 1;
  user_id = 7;
  card_number = "8600000000000001";
  card_track = "42";
  iiko_card_id = none;
}

abbrev one_card : Database
one_card = record (database_of [] [] []) { cards = record { rows = issued ∷ []; next_id = 2 } }

abbrev draws : Draws
draws = record { suffixes = "000000000001" ∷ "000000000002" ∷ []; tracks = "42" ∷ "43" ∷ [] }

create_card_for_user_lem_example :
    (suffix track : String) × (create_card_for_user draws 7 none (session_of one_card) ≡ (
      ok (card_row 7 (join card_number_prefix suffix) track none 2),
      record (session_of one_card) {
        work = record one_card {
          cards = add_row (card_row 7 (join card_number_prefix suffix) track none) one_card.cards;
        };
      },
    ))
unfolding has_number has_track count
create_card_for_user_lem_example =
    create_card_for_user_lem draws 7 none (session_of one_card) refl refl
