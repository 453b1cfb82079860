-- ===== src/Http.antt =====
-- The outcome of a handler: a value, or the `HTTPException` that FastAPI turns into the answer.
-- Models the use of fastapi.HTTPException under backend/app.
use metasight.Prelude.{Bool, String, if◌then◌else◌, inl, inr, refl, ℕ, ◌≡◌, ◌⊎◌}

pub record HttpError : Type 0 where
  pub status_code : ℕ
  pub detail : String

pub data Result {ℓ} (A : Type ℓ) : Type ℓ where
  ok : A → Result A
  raise : HttpError → Result A

infixl 5 ◌>>=◌ ◌>>◌
abbrev pub ◌>>=◌ {ℓ κ} : {A : Type ℓ} {B : Type κ} → Result A → (A → Result B) → Result B
ok a >>= f = f a
raise e >>= f = raise e

abbrev pub ◌>>◌ {ℓ} : {B : Type ℓ} → Result (Unit {0}) → Result B → Result B
m >> k = m >>= λ _. k

-- `raise HTTPException(status_code, detail)`.
abbrev pub http {ℓ} : {A : Type ℓ} → ℕ → String → Result A
http status_code detail = raise (record { status_code = status_code; detail = detail })

-- `if test: raise HTTPException(status_code, detail)`.
abbrev pub raise_if : Bool → ℕ → String → Result (Unit {0})
raise_if test status_code detail = if test then http status_code detail else ok tt

pub Result-cases {ℓ} :
    {A : Type ℓ} (r : Result A) → ((a : A) × (r ≡ ok a)) ⊎ ((e : HttpError) × (r ≡ raise e))
Result-cases (ok a) = inl (a, refl)
Result-cases (raise e) = inr (e, refl)
