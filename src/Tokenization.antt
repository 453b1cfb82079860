-- ===== src/Tokenization.antt =====
-- The token vault. Models backend/app/services/tokenization.py. The cipher of
-- backend/app/core/encryption.py rests on a library and is a parameter, as are the new tokens.
pub mod Vault
pub mod Rows
mod Tests
use metasight.Prelude.{
  List, Option, String, [], elem, first, if◌then◌else◌, length, nat_eq, none, not, some, string_eq,
  text_eq, ℕ, ◌&&◌, ◌++◌, ◌+◌, ◌==◌, ◌∷◌, ◌≡◌,
}
use metasight.Prelude.Dict.{Dict, insert, lookup}
use metasight.Identity.{User, role}

-- AES-GCM with a nonce for each encryption.

pub record Cipher : Type 0 where
  pub encrypt : ℕ → String → String
  pub decrypt : String → String
  pub decrypt-encrypt : (nonce : ℕ) (s : String) → decrypt (encrypt nonce s) ≡ s

pub record TokenVault : Type 0 where
  pub token : String
  pub encrypted_value : String
  pub column_name : Option String
  pub tenant_id : ℕ

-- The service of one request, and the table behind it. `fresh` gives the tokens of `uuid4` in their
-- order, and `drawn` is the number of those that have been drawn.
pub record TokenizationService : Type 0 where
  pub vault : List TokenVault
  pub tenant_id : ℕ
  pub cache : Dict String
  pub pending : List TokenVault
  pub drawn : ℕ

-- `PermissionError` and `ValueError`.
pub data Detokenized : Type 0 where
  value : String → Detokenized
  permission_error : String → Detokenized
  value_error : String → Detokenized

-- One entry of `policy["columns"]`: the action and the exempt roles.
pub record ColumnAction : Type 0 where
  pub action : String
  pub roles_exempt : List String

module _ (cipher : Cipher) (fresh : ℕ → String) where
  unfoldable pub tokenize :
      String → Option String → TokenizationService → String × TokenizationService
  tokenize v column_name s = elim (lookup v s.cache) [
    | some token ↦ (token, s)
    | none ↦
        (let token = fresh s.drawn in
          let entry : TokenVault = record {
            token = token;
            encrypted_value = cipher.encrypt s.drawn v;
            column_name = column_name;
            tenant_id = s.tenant_id;
          } in
          (
            token,
            record s {
              pending = s.pending ++ entry ∷ [];
              cache = insert v token s.cache;
              drawn = s.drawn + 1;
            },
          ))
  ]

  unfoldable pub flush_batch : TokenizationService → ℕ × TokenizationService
  flush_batch s =
      if length s.pending == 0
      then (0, s)
      else (length s.pending, record s { vault = s.vault ++ s.pending; pending = [] })

  unfoldable pub detokenize : String → User → TokenizationService → Detokenized
  detokenize token user s =
      if role user == "admin"
      then elim (first (λ e. e.token == token && e.tenant_id == s.tenant_id) s.vault) [
        | none ↦ value_error "Token not found"
        | some entry ↦ value (cipher.decrypt entry.encrypted_value)
      ]
      else permission_error "Only admins may detokenize"

  -- The inner loop of `apply_to_rows`; cells are by their `str`.
  unfoldable pub tokenize_row :
      Dict ColumnAction
      → User
      → Dict String
      → TokenizationService
      → Dict String × TokenizationService
  tokenize_row [] user row s = (row, s)
  tokenize_row ((col, pol) ∷ col_policies) user row s =
      elim (if pol.action == "tokenize" && not (elem (role user) pol.roles_exempt)
        then lookup col row
        else none) [
          | none ↦ tokenize_row col_policies user row s
          | some cell ↦
              (let (token, s') = tokenize cell (some col) s in
                tokenize_row col_policies user (insert col token row) s')
        ]

  unfoldable pub apply_to_rows :
      List (Dict String)
      → Dict ColumnAction
      → User
      → TokenizationService
      → List (Dict String) × TokenizationService
  apply_to_rows [] col_policies user s = ([], s)
  apply_to_rows (row ∷ rows) col_policies user s =
      let (row', s') = tokenize_row col_policies user row s in
      let (rows', s'') = apply_to_rows rows col_policies user s' in (row' ∷ rows', s'')
