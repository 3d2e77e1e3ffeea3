-- ===== src/Text/Unicode.antt =====
-- The tables of the Unicode database that Python's `str.isdigit` and `str.isspace` read (14.0).
use sardoba_app_server.Prelude.{
  ℕ, ◌≡◌, refl, Bool, true, false, not, ◌&&◌, ◌||◌, List, [], ◌∷◌, leb, ◌==◌, arith,
}

-- Inclusive ranges of code points, in rising order.
abbrev digit_ranges : List (ℕ × ℕ)
digit_ranges =
    (48, 57)
    ∷ (178, 179)
    ∷ (185, 185)
    ∷ (1632, 1641)
    ∷ (1776, 1785)
    ∷ (1984, 1993)
    ∷ (2406, 2415)
    ∷ (2534, 2543)
    ∷ (2662, 2671)
    ∷ (2790, 2799)
    ∷ (2918, 2927)
    ∷ (3046, 3055)
    ∷ (3174, 3183)
    ∷ (3302, 3311)
    ∷ (3430, 3439)
    ∷ (3558, 3567)
    ∷ (3664, 3673)
    ∷ (3792, 3801)
    ∷ (3872, 3881)
    ∷ (4160, 4169)
    ∷ (4240, 4249)
    ∷ (4969, 4977)
    ∷ (6112, 6121)
    ∷ (6160, 6169)
    ∷ (6470, 6479)
    ∷ (6608, 6618)
    ∷ (6784, 6793)
    ∷ (6800, 6809)
    ∷ (6992, 7001)
    ∷ (7088, 7097)
    ∷ (7232, 7241)
    ∷ (7248, 7257)
    ∷ (8304, 8304)
    ∷ (8308, 8313)
    ∷ (8320, 8329)
    ∷ (9312, 9320)
    ∷ (9332, 9340)
    ∷ (9352, 9360)
    ∷ (9450, 9450)
    ∷ (9461, 9469)
    ∷ (9471, 9471)
    ∷ (10102, 10110)
    ∷ (10112, 10120)
    ∷ (10122, 10130)
    ∷ (42528, 42537)
    ∷ (43216, 43225)
    ∷ (43264, 43273)
    ∷ (43472, 43481)
    ∷ (43504, 43513)
    ∷ (43600, 43609)
    ∷ (44016, 44025)
    ∷ (65296, 65305)
    ∷ (66720, 66729)
    ∷ (68160, 68163)
    ∷ (68912, 68921)
    ∷ (69216, 69224)
    ∷ (69714, 69722)
    ∷ (69734, 69743)
    ∷ (69872, 69881)
    ∷ (69942, 69951)
    ∷ (70096, 70105)
    ∷ (70384, 70393)
    ∷ (70736, 70745)
    ∷ (70864, 70873)
    ∷ (71248, 71257)
    ∷ (71360, 71369)
    ∷ (71472, 71481)
    ∷ (71904, 71913)
    ∷ (72016, 72025)
    ∷ (72784, 72793)
    ∷ (73040, 73049)
    ∷ (73120, 73129)
    ∷ (92768, 92777)
    ∷ (92864, 92873)
    ∷ (93008, 93017)
    ∷ (120782, 120831)
    ∷ (123200, 123209)
    ∷ (123632, 123641)
    ∷ (125264, 125273)
    ∷ (127232, 127242)
    ∷ (130032, 130041)
    ∷ []

abbrev space_codes : List ℕ
space_codes =
    9 ∷ 10 ∷ 11 ∷ 12 ∷ 13 ∷ 28 ∷ 29 ∷ 30 ∷ 31 ∷ 32 ∷ 133 ∷ 160 ∷ 5760 ∷ 8192 ∷ 8193 ∷ 8194 ∷ 8195
    ∷ 8196 ∷ 8197 ∷ 8198 ∷ 8199 ∷ 8200 ∷ 8201 ∷ 8202 ∷ 8232 ∷ 8233 ∷ 8239 ∷ 8287 ∷ 12288 ∷ []

in_ranges : ℕ → List (ℕ × ℕ) → Bool
in_ranges c [] = false
in_ranges c ((lo, hi) ∷ rs) = (leb lo c && leb c hi) || in_ranges c rs

among : ℕ → List ℕ → Bool
among c [] = false
among c (d ∷ ds) = c == d || among c ds

unfoldable pub is_digit_code : ℕ → Bool
unfolding in_ranges
is_digit_code c = in_ranges c digit_ranges

unfoldable pub is_space_code : ℕ → Bool
unfolding among
is_space_code c = among c space_codes

none_digit : List ℕ → Bool
none_digit [] = true
none_digit (c ∷ cs) = not (is_digit_code c) && none_digit cs

spaces_checked : none_digit space_codes ≡ true
unfolding none_digit is_digit_code
spaces_checked = refl

among-none_digit :
    (c : ℕ) (cs : List ℕ) → none_digit cs ≡ true → among c cs ≡ true → is_digit_code c ≡ false
unfolding none_digit among
among-none_digit c [] h m = cc
among-none_digit c (d ∷ ds) h m = ground (arith, among-none_digit c ds)

-- No space is a digit.
pub space_not_digit : (c : ℕ) → is_space_code c ≡ true → is_digit_code c ≡ false
unfolding is_space_code
space_not_digit c h = among-none_digit c space_codes spaces_checked h
