-- ===== src/Tokens/Tests/Plain.antt =====
-- Tokens that are read as they are written, and passwords that are their own hashes.
use text.Mathlib.Text.{◌==◌ as str_eq}
use text.Mathlib.TextPositions.{eq_refl}
use sardoba_app_server.Prelude.{
  ℕ, ◌<◌, ◌≡◌, String, Bool, true, ◌&&◌, Option, none, some, arith, if◌then◌else◌, ltb, Bool-cases,
  inl, inr,
}
use sardoba_app_server.Prelude.Int.{pos}
use sardoba_app_server.Prelude.Dict.{Dict, lookup}
use sardoba_app_server.Json.{Json, num}
use sardoba_app_server.SyncJobs.{seconds}
use sardoba_app_server.Tokens.{Security, IsSecurity}

abbrev lives_until : Option Json → ℕ → Bool
lives_until (some (num (pos exp))) now = ltb now (seconds exp)
lives_until _ now = true

unfoldable pub read_token : Dict Json × String → String → ℕ → Option (Dict Json)
unfolding lookup
read_token (p, key) key' now =
    if str_eq key key' && lives_until (lookup "exp" p) now then some p else none

abbrev pub plain_security : Security
plain_security = record {
  Token = Dict Json × String;
  hash = λ salt password. password;
  verify = λ password hashed. str_eq password hashed;
  encode = λ p key. (p, key);
  decode = read_token;
  access_key = "access";
  refresh_key = "refresh";
}

read_unexpired :
    (p : Dict Json) (key : String) (exp now : ℕ)
    → lookup "exp" p ≡ some (num (pos exp))
    → now < seconds exp
    → read_token (p, key) key now ≡ some p
unfolding read_token
read_unexpired p key exp now e h = rw (e, eq_refl key) (ground arith)

read_signed :
    (p q : Dict Json) (key key' : String) (now : ℕ) → read_token (p, key) key' now ≡ some q → p ≡ q
unfolding read_token
read_signed p q key key' now h =
    elim (Bool-cases (str_eq key key' && lives_until (lookup "exp" p) now)) [
      | inl e ↦ cc (rw e at h)
      | inr e ↦ cc (rw e at h)
    ]

pub plain-IsSecurity : IsSecurity plain_security
plain-IsSecurity = record {
  verify_hash = λ salt password. eq_refl password;
  decode_encode = read_unexpired;
  decode_signed = read_signed;
}
