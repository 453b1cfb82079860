-- ===== src/Masking/Digits.antt =====
-- How many digits of a number a full mask shows. About _mask_phone, _mask_ssn and
-- _mask_credit_card of backend/app/services/masking.py, as mask_value picks them.
use metasight.Prelude.{
  All, Bool-cases, Option, String, Text, [], ap, arith, codes, drop, eq_of_ne, false, inl, inr, leb,
  length, length-drop, ltb, refl, some, suc, text_beq, true, upper, zero, ℕ, ◌++◌, ◌-◌, ◌∙◌, ◌∷◌,
  ◌≡◌, ◌≢◌, ◌≤◌,
}
use metasight.Mask.Scan.{but_last, digits_of, is_digit, last, star_digits}
use metasight.Mask.Full.{mask_credit_card, mask_phone, mask_ssn}
use metasight.Masking.{mask_text, select_fn, upper_type}

digits_of-append : (s t : Text) → digits_of (s ++ t) ≡ digits_of s ++ digits_of t
digits_of-append [] t = refl
digits_of-append (c ∷ s) t = elim (Bool-cases (is_digit c)) [
  | inl h ↦ rw (h, digits_of-append s t)
  | inr h ↦ rw (h, digits_of-append s t)
]

abbrev IsAllDigits : Text → Type 0
IsAllDigits s = All (λ c. is_digit c ≡ true) s

digits_of-IsAllDigits : (s : Text) → IsAllDigits (digits_of s)
digits_of-IsAllDigits [] = tt
digits_of-IsAllDigits (c ∷ s) = elim (Bool-cases (is_digit c)) [
  | inl h ↦ rw h (h, digits_of-IsAllDigits s)
  | inr h ↦ rw h (digits_of-IsAllDigits s)
]

drop-IsAllDigits : (n : ℕ) (s : Text) → IsAllDigits s → IsAllDigits (drop n s)
drop-IsAllDigits zero s h = h
drop-IsAllDigits (suc n) [] h = tt
drop-IsAllDigits (suc n) (c ∷ s) h = drop-IsAllDigits n s h.1

digits_of-IsAllDigits' : (s : Text) → IsAllDigits s → digits_of s ≡ s
digits_of-IsAllDigits' [] h = refl
digits_of-IsAllDigits' (c ∷ s) h = rw (h.0, digits_of-IsAllDigits' s h.1)

digits_of-last : (n : ℕ) (s : Text) → digits_of (last n (digits_of s)) ≡ last n (digits_of s)
digits_of-last n s =
    digits_of-IsAllDigits' _
      (drop-IsAllDigits (length (digits_of s) - n) (digits_of s) (digits_of-IsAllDigits s))

digits_of-star_digits : (s : Text) → digits_of (star_digits s) ≡ []
unfolding star_digits
digits_of-star_digits [] = refl
digits_of-star_digits (c ∷ s) = elim (Bool-cases (is_digit c)) [
  | inl h ↦ rw (h, star) (digits_of-star_digits s)
  | inr h ↦ rw (h, h) (digits_of-star_digits s)
]
  where
    star : is_digit b'*' ≡ false
    star = unfold is_digit in refl

-- A prefix without digits in front of the last four.
shown_digits :
    (prefix s : Text)
    → digits_of prefix ≡ []
    → digits_of (prefix ++ last 4 (digits_of s)) ≡ last 4 (digits_of s)
shown_digits prefix s h = rw (digits_of-append, h) (digits_of-last 4 s)

last_of_short : (s : Text) → leb 4 (length s) ≡ false → last 4 s ≡ s
last_of_short s h = let e : length s - 4 ≡ 0 = ground arith in rw e

phone_prefix : digits_of (codes "***-***-") ≡ []
unfolding is_digit
phone_prefix = refl

card_prefix : digits_of (codes "****-****-****-") ≡ []
unfolding is_digit
card_prefix = refl

ssn_prefix : digits_of (codes "***-**-") ≡ []
unfolding is_digit
ssn_prefix = refl

-- A mask is a prefix without digits, and the last four digits of the value.
abbrev ShowsLastFour : (Text → Text) → Text → Type 0
ShowsLastFour fn s =
    (prefix : Text) × (digits_of prefix ≡ []) × (fn s ≡ prefix ++ last 4 (digits_of s))

mask_ssn-ShowsLastFour : (s : Text) → ShowsLastFour mask_ssn s
unfolding mask_ssn
mask_ssn-ShowsLastFour s = elim (Bool-cases (leb 4 (length (digits_of s)))) [
  | inl h ↦ (codes "***-**-", ssn_prefix, rw h)
  | inr h ↦ (codes "***-**-", ssn_prefix, rw (h, last_of_short (digits_of s) h))
]

mask_credit_card-ShowsLastFour : (s : Text) → ShowsLastFour mask_credit_card s
unfolding mask_credit_card
mask_credit_card-ShowsLastFour s = elim (Bool-cases (leb 4 (length (digits_of s)))) [
  | inl h ↦ (codes "****-****-****-", card_prefix, rw h)
  | inr h ↦ (codes "****-****-****-", card_prefix, rw (h, last_of_short (digits_of s) h))
]

mask_phone-ShowsLastFour : (s : Text) → ShowsLastFour mask_phone s
unfolding mask_phone
mask_phone-ShowsLastFour s = elim (Bool-cases (leb 4 (length (digits_of s)))) [
  | inr h ↦ (codes "***-***-", phone_prefix, rw (h, last_of_short (digits_of s) h))
  | inl h ↦ elim (Bool-cases (ltb 4 (length s))) [
    | inl k ↦ (star_digits (but_last 4 s), digits_of-star_digits (but_last 4 s), rw (h, k))
    | inr k ↦ (codes "***-***-", phone_prefix, rw (h, k))
  ]
]

ShowsLastFour-digits :
    (fn : Text → Text) (s : Text) → ShowsLastFour fn s → digits_of (fn s) ≡ last 4 (digits_of s)
ShowsLastFour-digits fn s (prefix, h, e) = rw e (shown_digits prefix s h)

length-last : (s : Text) → length (last 4 s) ≤ 4
length-last s = omega (arith, length-drop {0} (length s - 4) s)

-- The kinds of data that are masked by their digits.
pub data IsNumberKind : String → Type 0 where
  phone : IsNumberKind "PHONE"
  ssn : IsNumberKind "SSN"
  credit_card : IsNumberKind "CREDIT_CARD"

select-ShowsLastFour :
    (kind level : String) (s : Text)
    → level ≢ "partial"
    → IsNumberKind kind
    → ShowsLastFour (select_fn (upper (codes kind)) level) s
unfolding select_fn upper text_beq
select-ShowsLastFour kind level s not_partial phone =
    rw (eq_of_ne level "partial" not_partial) (mask_phone-ShowsLastFour s)
select-ShowsLastFour kind level s not_partial ssn =
    rw (eq_of_ne level "partial" not_partial) (mask_ssn-ShowsLastFour s)
select-ShowsLastFour kind level s not_partial credit_card =
    rw (eq_of_ne level "partial" not_partial) (mask_credit_card-ShowsLastFour s)

pub mask_text-select :
    (s : Text) (kind : Option String) (level : String)
    → level ≢ "raw"
    → s ≢ []
    → mask_text s kind level ≡ select_fn (upper_type kind) level s
unfolding mask_text
mask_text-select [] kind level h k = absurd (k refl)
mask_text-select (c ∷ s) kind level h k = ground (arith, eq_of_ne level "raw" h)

-- Below the level `raw`, and not at `partial`, the mask of a phone number, a social security
-- number or a card number shows exactly the last four digits of the value and no other digit.
pub mask_text-digits :
    (kind level : String) (s : Text)
    → level ≢ "raw"
    → level ≢ "partial"
    → IsNumberKind kind
    → (digits_of (mask_text s (some kind) level) ≡ last 4 (digits_of s))
      × (length (digits_of (mask_text s (some kind) level)) ≤ 4)
unfolding mask_text
mask_text-digits kind level [] not_raw not_partial k =
    rw (eq_of_ne level "raw" not_raw) (refl, omega arith)
mask_text-digits kind level (c ∷ s) not_raw not_partial k =
    let value : Text = c ∷ s in
    let masked = select-ShowsLastFour kind level value not_partial k in
    let e = mask_text-select value (some kind) level not_raw (λ h. cc) in
    let shown =
      ap digits_of e ∙ ShowsLastFour-digits (select_fn (upper (codes kind)) level) value masked in
    (shown, omega (arith, ap length shown, length-last (digits_of value)))
