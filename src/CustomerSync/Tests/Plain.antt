-- ===== src/CustomerSync/Tests/Plain.antt =====
-- Readers that give fixed values, and the draws for one card.
use sardoba_app_server.Prelude.{ℕ, some, none, [], ◌∷◌}
use sardoba_app_server.Prelude.Int.{pos}
use sardoba_app_server.Cards.{Draws}
use sardoba_app_server.Iiko.{Readers}

abbrev pub readers : Readers
readers = record {
  str_of = λ v. "12.50";
  lower = λ t. t;
  decimal = λ t. some (pos 1250);
  strptime = λ t format. none;
  fromisoformat = λ t. none;
  strftime = λ d. "2000-01-01";
}

abbrev pub draws : ℕ → Draws
draws _ = record { suffixes = "000000000001" ∷ []; tracks = "42" ∷ [] }
