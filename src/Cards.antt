-- ===== src/Cards.antt =====
-- Loyalty cards: app/services/card_service.py. The random suffixes and tracks that the loops of the
-- service draw are arguments: a list holds the draws that are made, and a loop whose list is used up
-- goes on, which stands as a runtime error here.
pub mod Drawing
pub mod Untouched
mod Tests
use text.Mathlib.Text.{◌==◌ as str_eq}
use sardoba_app_server.Prelude.{
  ℕ, String, Bool, true, false, not, ◌&&◌, Option, none, some, List, [], ◌∷◌, ◌==◌, if◌then◌else◌,
  first, count, update_rows,
}
use sardoba_app_server.Text.{join, keep_digits, strip}
use sardoba_app_server.Failure.{runtime_error, integrity_error}
use sardoba_app_server.Models.{User, Card, Database, add_row}
use sardoba_app_server.Service.{Service, ◌>>=◌, ◌>>◌, pure, raise, query, write, unless}

abbrev pub card_number_prefix : String
card_number_prefix = "8600"

unfoldable pub has_number : String → Database → Bool
has_number number db = not (count (λ c. str_eq c.card_number number) db.cards.rows == 0)

unfoldable pub has_track : String → Database → Bool
has_track track db = not (count (λ c. str_eq c.card_track track) db.cards.rows == 0)

unfoldable pub generate_card_number : List String → Service String
unfolding has_number
generate_card_number [] = raise (runtime_error "still drawing")
generate_card_number (suffix ∷ suffixes) = do
  exists ← query (has_number (join card_number_prefix suffix))
  (if exists then generate_card_number suffixes else pure (join card_number_prefix suffix))

unfoldable pub generate_card_track : List String → Service String
unfolding has_track
generate_card_track [] = raise (runtime_error "still drawing")
generate_card_track (track ∷ tracks) = do
  exists ← query (has_track track)
  (if exists then generate_card_track tracks else pure track)

-- The draws for one card.
pub record Draws : Type 0 where
  pub suffixes : List String
  pub tracks : List String

unfoldable pub card_row : ℕ → String → String → Option String → ℕ → Card
card_row user_id number track iiko_card_id id = record {
  id = id;
  user_id = user_id;
  card_number = number;
  card_track = track;
  iiko_card_id = iiko_card_id;
}

-- `db.add` and its flush, where both columns are unique.
unfoldable pub insert_card : ℕ → String → String → Option String → Service Card
unfolding has_number has_track card_row
insert_card user_id number track iiko_card_id = do
  number_taken ← query (has_number number)
  track_taken ← query (has_track track)
  unless (not number_taken && not track_taken) integrity_error
  id ← query (λ db. db.cards.next_id)
  write (λ db. record db { cards = add_row (card_row user_id number track iiko_card_id) db.cards })
  pure (card_row user_id number track iiko_card_id id)

unfoldable pub create_card_for_user : Draws → ℕ → Option String → Service Card
unfolding generate_card_number generate_card_track insert_card
create_card_for_user d user_id iiko_card_id = do
  number ← generate_card_number d.suffixes
  track ← generate_card_track d.tracks
  insert_card user_id number track iiko_card_id

-- A card as the iiko API writes it.
pub record IikoCard : Type 0 where
  pub id : Option String
  pub card_id : Option String
  pub card_number : Option String
  pub number : Option String
  pub card_track : Option String
  pub track : Option String

-- `a or b` on texts that may be missing; an empty text counts as missing.
abbrev pub or_text : Option String → Option String → Option String
or_text none b = b
or_text (some a) b = if str_eq a "" then b else some a

abbrev pub text_or_empty : Option String → String
text_or_empty none = ""
text_or_empty (some a) = a

abbrev given_or : Option String → Option String → Option String
given_or none old = old
given_or (some a) old = if str_eq a "" then old else some a

update_card : String → Option String → Card → Card
update_card track iiko_card_id c = record c {
  card_track = track;
  iiko_card_id = given_or iiko_card_id c.iiko_card_id;
}

-- Some other row has the track.
unfoldable pub track_conflict : ℕ → String → Database → Bool
track_conflict id track db =
    not (count (λ c. str_eq c.card_track track && not (c.id == id)) db.cards.rows == 0)

-- An existing card gets the new track, whoever its user is; the next flush checks that it is unique.
unfoldable pub renew_card : Card → String → Option String → Service (Option Card)
unfolding track_conflict update_card
renew_card card track iiko_card_id = do
  conflict ← query (track_conflict card.id track)
  unless (not conflict) integrity_error
  write (λ db. record db {
    cards = record db.cards {
      rows = update_rows (λ c. c.id == card.id) (update_card track iiko_card_id) db.cards.rows;
    };
  })
  pure (some (update_card track iiko_card_id card))

unfoldable pub put_card : ℕ → String → String → Option String → Option Card → Service (Option Card)
unfolding renew_card insert_card
put_card user_id number track iiko_card_id (some card) = renew_card card track iiko_card_id
put_card user_id number track iiko_card_id none = do
  card ← insert_card user_id number track iiko_card_id
  pure (some card)

unfoldable pub store_card : ℕ → String → String → Option String → Service (Option Card)
unfolding put_card
store_card user_id number track iiko_card_id = do
  found ← query (λ db. first (λ c. str_eq c.card_number number) db.cards.rows)
  put_card user_id number track iiko_card_id found

unfoldable pub ensure_card_from_iiko : ℕ → IikoCard → Service (Option Card)
unfolding store_card keep_digits strip
ensure_card_from_iiko user_id c =
    let number = keep_digits (text_or_empty (or_text c.card_number c.number)) in
    let track = strip (text_or_empty (or_text c.card_track c.track)) in
    if str_eq number ""
    then pure none
    else (if str_eq track ""
        then pure none
        else store_card user_id number track (or_text c.id c.card_id))
