-- ===== src/Phone/Format.antt =====
-- What `normalize_uzbek_phone` of app/core/phone.py returns, and that it is stable.
use Prim.Native.String.{[], ◌∷◌}
use sardoba_app_server.Prelude.{
  ◌≡◌, refl, ap, sym, ◌∙◌, String, true, arith, Bool-cases, ◌⊎◌, ◌↔◌, inl, inr,
}
use sardoba_app_server.Text.{count_chars, join, keep_digits, strip, has_prefix, is_digit_code}
use sardoba_app_server.Text.Laws.{keep_digits_idem, keep_digits-strip}
use sardoba_app_server.Failure.{ok}
use sardoba_app_server.Phone.{normalize_digits, normalize_uzbek_phone}

-- A phone in the form +998XXXXXXXXX: its digits are 998 and nine more, and it is the plus sign and
-- its digits.
pub record IsUzbekPhone (phone : String) : Type 0 where
  pub shape : phone ≡ join "+" (keep_digits phone)
  pub country : has_prefix "998" (keep_digits phone) ≡ true
  pub long : count_chars (keep_digits phone) ≡ 12

digits-plus : (d : String) → keep_digits (join "+" d) ≡ keep_digits d
unfolding keep_digits is_digit_code
digits-plus d = refl

digits-country : (d : String) → keep_digits (join "+998" d) ≡ join "998" (keep_digits d)
unfolding keep_digits is_digit_code
digits-country d = refl

-- The two ways to succeed.
abbrev Accepted : String → String → Type 0
Accepted d phone =
    ((phone ≡ join "+" d) × (has_prefix "998" d ≡ true) × (count_chars d ≡ 12))
    ⊎ ((phone ≡ join "+998" d) × (count_chars d ≡ 9))

Accepted-digits : (d phone : String) → normalize_digits d ≡ ok phone → Accepted d phone
unfolding normalize_digits
Accepted-digits [] phone e = cc
Accepted-digits (c ∷ s) phone e = elim (Bool-cases (has_prefix "998" (c ∷ s))) [
  | inl h ↦ inl (ground arith, h, ground arith)
  | inr h ↦ inr (ground arith, ground arith)
]

IsUzbekPhone-Accepted :
    (d phone : String) → keep_digits d ≡ d → Accepted d phone → IsUzbekPhone phone
unfolding has_prefix
IsUzbekPhone-Accepted d phone own (inl (e, h, n)) =
    let same : keep_digits phone ≡ d = rw e (digits-plus d ∙ own) in
    record { shape = rw same e; country = rw same h; long = rw same n }
IsUzbekPhone-Accepted d phone own (inr (e, n)) =
    let same : keep_digits phone ≡ join "998" d = rw e (digits-country d ∙ ap (join "998") own) in
    record { shape = rw same e; country = rw same refl; long = rw same (omega arith) }

normalize_digits-full :
    (d : String)
    → has_prefix "998" d ≡ true
    → count_chars d ≡ 12
    → normalize_digits d ≡ ok (join "+" d)
unfolding normalize_digits
normalize_digits-full [] h n = absurd (omega arith)
normalize_digits-full (c ∷ s) h n = rw h (ground arith)

-- Whatever the input, a returned phone is in the form +998XXXXXXXXX: a plus sign and twelve digits, of
-- which the first three are 998.
pub normalize-IsUzbekPhone :
    (text phone : String) → normalize_uzbek_phone text ≡ ok phone → IsUzbekPhone phone
unfolding normalize_uzbek_phone
normalize-IsUzbekPhone text phone e =
    let d = keep_digits (strip text) in
    IsUzbekPhone-Accepted d phone (keep_digits_idem (strip text)) (Accepted-digits d phone e)

fixed_phone : (phone : String) → IsUzbekPhone phone → normalize_uzbek_phone phone ≡ ok phone
unfolding normalize_uzbek_phone
fixed_phone phone v =
    rw (keep_digits-strip phone)
      (normalize_digits-full (keep_digits phone) v.country v.long ∙ ap ok (sym v.shape))

-- The phones in that form are exactly those that the function returns unchanged.
pub normalize_fixed :
    (phone : String) → IsUzbekPhone phone ↔ (normalize_uzbek_phone phone ≡ ok phone)
normalize_fixed phone = (fixed_phone phone, normalize-IsUzbekPhone phone phone)

-- What the function returns for any text is in the form, and the function returns it unchanged: it may be
-- applied again at every layer.
pub normalize_idempotent :
    (text phone : String)
    → normalize_uzbek_phone text ≡ ok phone
    → IsUzbekPhone phone × (normalize_uzbek_phone phone ≡ ok phone)
normalize_idempotent text phone e =
    let v = normalize-IsUzbekPhone text phone e in (v, fixed_phone phone v)
