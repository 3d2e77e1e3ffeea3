-- ===== src/Cards/Drawing.antt =====
-- `create_card_for_user` of app/services/card_service.py ends with a card once a free number and a
-- free track are drawn.
use sardoba_app_server.Prelude.{
  ℕ, ◌≡◌, refl, String, Bool, true, false, not, ◌||◌, Option, List, [], ◌∷◌, inl, inr, Bool-cases,
}
use sardoba_app_server.Text.{join}
use sardoba_app_server.Failure.{ok}
use sardoba_app_server.Models.{Database, add_row}
use sardoba_app_server.Service.{Session}
use sardoba_app_server.Cards.{
  card_number_prefix, Draws, has_number, has_track, generate_card_number, generate_card_track,
  card_row, insert_card, create_card_for_user,
}

-- Some draw is free.
abbrev pub has_free : (String → Bool) → List String → Bool
has_free taken [] = false
has_free taken (x ∷ xs) = not (taken x) || has_free taken xs

abbrev pub number_taken : Database → String → Bool
number_taken db suffix = has_number (join card_number_prefix suffix) db

abbrev pub track_taken : Database → String → Bool
track_taken db track = has_track track db

numbers_drawn :
    (suffixes : List String) (s : Session)
    → has_free (number_taken s.work) suffixes ≡ true
    → (suffix : String) × (generate_card_number suffixes s
        ≡ (ok (join card_number_prefix suffix), s))
      × (number_taken s.work suffix ≡ false)
unfolding generate_card_number
numbers_drawn [] s h = cc
numbers_drawn (x ∷ xs) s h = elim (Bool-cases (number_taken s.work x)) [
  | inl e ↦
      let (suffix, drawn, free) = numbers_drawn xs s (rw e at h) in
      (suffix, rw (e, drawn) refl, free)
  | inr e ↦ (x, rw e refl, e)
]

tracks_drawn :
    (tracks : List String) (s : Session)
    → has_free (track_taken s.work) tracks ≡ true
    → (track : String) × (generate_card_track tracks s ≡ (ok track, s))
      × (track_taken s.work track ≡ false)
unfolding generate_card_track
tracks_drawn [] s h = cc
tracks_drawn (x ∷ xs) s h = elim (Bool-cases (track_taken s.work x)) [
  | inl e ↦
      let (track, drawn, free) = tracks_drawn xs s (rw e at h) in (track, rw (e, drawn) refl, free)
  | inr e ↦ (x, rw e refl, e)
]

-- Once a free number and a free track are among the draws, a card is made: it is the user's, its
-- number has the prefix, and the table holds the cards from before and this one.
pub create_card_for_user_lem :
    (d : Draws) (user_id : ℕ) (iiko_card_id : Option String) (s : Session)
    → has_free (number_taken s.work) d.suffixes ≡ true
    → has_free (track_taken s.work) d.tracks ≡ true
    → (suffix track : String) × (create_card_for_user d user_id iiko_card_id s ≡ (
      ok (
          card_row user_id
            (join card_number_prefix suffix)
            track
            iiko_card_id
            s.work.cards.next_id),
      record s {
        work = record s.work {
          cards =
              add_row
                (card_row user_id (join card_number_prefix suffix) track iiko_card_id)
                s.work.cards;
        };
      },
    ))
unfolding create_card_for_user insert_card
create_card_for_user_lem d user_id iiko_card_id s hn ht =
    let (suffix, numbered, free_number) = numbers_drawn d.suffixes s hn in
    let (track, tracked, free_track) = tracks_drawn d.tracks s ht in
    (suffix, track, rw (numbered, tracked, free_number, free_track) refl)
