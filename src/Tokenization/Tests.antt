-- ===== src/Tokenization/Tests.antt =====
-- Runs of backend/app/services/tokenization.py, and the theorems at concrete inputs.
use metasight.Prelude.{
  String, [], ap, arith, codes, length, none, refl, some, suc, sym, zero, ℕ, ◌∙◌, ◌∷◌, ◌≡◌,
}
use metasight.Prelude.Dict.{Dict, insert, lookup}
use metasight.Identity.{User}
use metasight.Tokenization.{
  Cipher, ColumnAction, TokenVault, TokenizationService, apply_to_rows, detokenize, flush_batch,
  tokenize, tokenize_row, value,
}
use metasight.Tokenization.Vault.{IsSound}
use metasight.Tokenization.Rows.{tokenize_row_roundtrip}

program : Unit {0}
unfolding tokenize flush_batch detokenize tokenize_row apply_to_rows lookup insert
program = tt

-- A cipher that keeps the text.
abbrev plain : Cipher
plain = record { encrypt = λ nonce s. s; decrypt = λ s. s; decrypt-encrypt = λ nonce s. refl }

unfoldable tally : ℕ → String
tally zero = ""
tally (suc n) = String.◌∷◌ "t" (tally n)

length-tally : (n : ℕ) → length (codes (tally n)) ≡ n
unfolding tally
length-tally zero = refl
length-tally (suc n) = ap suc (length-tally n)

tally-distinct : (i j : ℕ) → tally i ≡ tally j → i ≡ j
tally-distinct i j h = sym (length-tally i) ∙ ap (λ s. length (codes s)) h ∙ length-tally j

abbrev analyst : User
analyst = record {
  tenant_id = 1;
  department_id = none;
  claims = ("sub", "ana@x.io") ∷ ("role", "analyst") ∷ [];
}

abbrev admin : User
admin = record {
  tenant_id = 1;
  department_id = none;
  claims = ("sub", "root@x.io") ∷ ("role", "admin") ∷ [];
}

abbrev service : TokenizationService
service = record { vault = []; tenant_id = 1; cache = []; pending = []; drawn = 1 }

abbrev policies : Dict ColumnAction
policies =
    ("ssn", record { action = "tokenize"; roles_exempt = [] })
    ∷ ("name", record { action = "tokenize"; roles_exempt = "analyst" ∷ [] })
    ∷ []

abbrev row : Dict String
row = ("ssn", "123") ∷ ("name", "Ann") ∷ []

abbrev entry : TokenVault
entry = record { token = "t"; encrypted_value = "123"; column_name = some "ssn"; tenant_id = 1 }

abbrev used : TokenizationService
used = record {
  vault = [];
  tenant_id = 1;
  cache = ("123", "t") ∷ [];
  pending = entry ∷ [];
  drawn = 2;
}

-- Two rows with the same value share a token.
rows_run :
    apply_to_rows plain tally (row ∷ row ∷ []) policies analyst service
    ≡ ((("ssn", "t") ∷ ("name", "Ann") ∷ []) ∷ (("ssn", "t") ∷ ("name", "Ann") ∷ []) ∷ [], used)
unfolding program tally
rows_run = refl

service-IsSound : IsSound plain tally service
unfolding lookup
service-IsSound = record { unborn = tt; held = λ v token h. absurd (ground arith) }

tokenize_row_roundtrip_example :
    (token : String) × (lookup "ssn" (tokenize_row plain tally policies analyst row service).0
      ≡ some token)
    × (detokenize plain tally token admin
          (flush_batch plain tally (tokenize_row plain tally policies analyst row service).1).1
        ≡ value "123")
unfolding lookup
tokenize_row_roundtrip_example =
    tokenize_row_roundtrip plain tally tally-distinct analyst policies row service admin "ssn" "123"
      (refl, (refl, tt)) service-IsSound refl refl refl
