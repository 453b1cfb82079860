-- ===== src/Masking/Hides.antt =====
-- What two values with the same mask may differ in. About the _mask_* functions of
-- backend/app/services/masking.py, as mask_value picks them.
use metasight.Prelude.{
  All, String, Text, [], ap, arith, codes, eq_iff, length, length-append, refl, some, suc, sym,
  take, text_beq, upper, zero, ℕ, ◌++◌, ◌-◌, ◌<◌, ◌∙◌, ◌∷◌, ◌≡◌, ◌≢◌,
}
use metasight.Mask.Scan.{digits_of, split_first, stars, words}
use metasight.Mask.Full.{mask_amount, mask_email, mask_location, mask_secret, mask_sensitive}
use metasight.Mask.Partial.{partial_email, partial_name, partial_phone, partial_ssn}
use metasight.Masking.{mask_text, select_fn}
use metasight.Masking.Digits.{mask_text-select}

-- The kinds of data of which nothing is shown at any level but `raw`.

pub data IsSecretKind : String → Type 0 where
  amount : IsSecretKind "AMOUNT"
  secret : IsSecretKind "SECRET"
  location : IsSecretKind "LOCATION"
  sensitive : IsSecretKind "SENSITIVE"

select_secret :
    (kind level : String) (s t : Text)
    → IsSecretKind kind
    → select_fn (upper (codes kind)) level s ≡ select_fn (upper (codes kind)) level t
unfolding select_fn upper text_beq mask_amount mask_secret mask_location mask_sensitive
select_secret kind level s t amount = ground arith
select_secret kind level s t secret = ground arith
select_secret kind level s t location = ground arith
select_secret kind level s t sensitive = ground arith

-- Amounts, secrets, locations and sensitive data are masked alike whatever they are: below the level
-- `raw`, the masks of two values that are not empty are equal.
pub mask_text_secret :
    (kind level : String) (s t : Text)
    → IsSecretKind kind
    → level ≢ "raw"
    → s ≢ []
    → t ≢ []
    → mask_text s (some kind) level ≡ mask_text t (some kind) level
mask_text_secret kind level s t k not_raw hs ht =
    mask_text-select s (some kind) level not_raw hs
    ∙ select_secret kind level s t k
    ∙ sym (mask_text-select t (some kind) level not_raw ht)

abbrev NoAt : Text → Type 0
NoAt s = All (λ c. c ≢ b'@') s

split_first-append : (s t : Text) → NoAt s → split_first b'@' (s ++ b'@' ∷ t) ≡ some (s, t)
unfolding split_first
split_first-append [] t h = refl
split_first-append (c ∷ s) t h = ground (arith, split_first-append s t h.1)

mask_email_of_split :
    (value r domain : Text) (c : ℕ)
    → split_first b'@' value ≡ some (c ∷ r, domain)
    → mask_email value ≡ c ∷ (codes "***@" ++ domain)
unfolding mask_email
mask_email_of_split value r domain c h = rw (h, mask_email) refl

-- Of an address with a non-empty part before the sign, the full mask shows the first character and
-- the domain, and nothing else: addresses that agree in these have the same mask.
pub mask_email_hides :
    (c : ℕ) (s t domain : Text)
    → c ≢ b'@'
    → All (λ d. d ≢ b'@') s
    → All (λ d. d ≢ b'@') t
    → mask_email (c ∷ (s ++ b'@' ∷ domain)) ≡ mask_email (c ∷ (t ++ b'@' ∷ domain))
mask_email_hides c s t domain h hs ht =
    mask_email_of_split _ s domain c (split_first-append (c ∷ s) domain (h, hs))
    ∙ sym (mask_email_of_split _ t domain c (split_first-append (c ∷ t) domain (h, ht)))

length-stars : (n : ℕ) → length (stars n) ≡ n
unfolding stars
length-stars zero = refl
length-stars (suc n) = ap suc (length-stars n)

abbrev starred : Text → Text → Text
starred s domain = take 2 s ++ (stars (length s - 2) ++ b'@' ∷ domain)

length-starred : (s domain : Text) → length (starred s domain) ≡ length (s ++ b'@' ∷ domain)
unfolding stars
length-starred [] domain = refl
length-starred (a ∷ []) domain = refl
length-starred (a ∷ b ∷ s) domain = omega (
  arith,
  length-append {0} (stars (length (a ∷ b ∷ s) - 2)) (b'@' ∷ domain),
  length-stars (length (a ∷ b ∷ s) - 2),
  length-append {0} s (b'@' ∷ domain),
)

partial_email_of_split :
    (value s domain : Text)
    → split_first b'@' value ≡ some (s, domain)
    → partial_email value ≡ starred s domain
unfolding partial_email
partial_email_of_split value [] domain h = rw (h, partial_email) refl
partial_email_of_split value (a ∷ []) domain h = rw (h, partial_email) refl
partial_email_of_split value (a ∷ b ∷ s) domain h = rw (h, partial_email) (ground arith)

-- The partial mask of an address keeps its length and its domain: it stars what follows the second
-- character of the part before the sign.
pub partial_email_lem :
    (s domain : Text)
    → All (λ d. d ≢ b'@') s
    → (partial_email (s ++ b'@' ∷ domain) ≡ take 2 s ++ (stars (length s - 2) ++ b'@' ∷ domain))
      × (length (partial_email (s ++ b'@' ∷ domain)) ≡ length (s ++ b'@' ∷ domain))
partial_email_lem s domain h =
    let e = partial_email_of_split _ s domain (split_first-append s domain h) in
    (e, ap length e ∙ length-starred s domain)

-- The values that are too short for their partial mask.
pub data IsShort (s : Text) : String → Type 0 where
  phone : length (digits_of s) < 7 → IsShort s "PHONE"
  ssn : length (digits_of s) < 4 → IsShort s "SSN"
  name : words s ≡ s ∷ [] → IsShort s "NAME"

partial_phone_short : (s : Text) → length (digits_of s) < 7 → partial_phone s ≡ s
unfolding partial_phone
partial_phone_short s h = ground arith

partial_ssn_short : (s : Text) → length (digits_of s) < 4 → partial_ssn s ≡ s
unfolding partial_ssn
partial_ssn_short s h = ground arith

partial_name_short : (s : Text) → words s ≡ s ∷ [] → partial_name s ≡ s
unfolding partial_name
partial_name_short s h = rw (h, partial_name) refl

select_short :
    (kind : String) (s : Text) → IsShort s kind → select_fn (upper (codes kind)) "partial" s ≡ s
unfolding select_fn upper text_beq
select_short kind s (phone h) = partial_phone_short s h
select_short kind s (ssn h) = partial_ssn_short s h
select_short kind s (name h) = partial_name_short s h

-- At the level `partial` a short value is shown whole: a phone number of fewer than seven digits,
-- a social security number of fewer than four, and a name that is one word.
pub partial_shows_short :
    (kind : String) (s : Text) → IsShort s kind → mask_text s (some kind) "partial" ≡ s
unfolding mask_text
partial_shows_short kind [] h = refl
partial_shows_short kind (c ∷ s) h =
    mask_text-select (c ∷ s) (some kind) "partial" (ground (arith, eq_iff "partial" "raw"))
      (λ e. cc)
    ∙ select_short kind (c ∷ s) h
