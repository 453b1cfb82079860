-- ===== src/Tokenization/Rows.antt =====
-- Tokens of a query's rows can be turned back by an admin, and by nobody else.
-- About apply_to_rows and detokenize of backend/app/services/tokenization.py.
use metasight.Prelude.{
  Bool, Bool-cases, List, Option, Option-cases, String, [], ap, arith, elem, eq_iff, false, first,
  first_sound, inl, inr, length, nat_eq, none, not, refl, some, string_eq, sym, text_eq, true, ℕ,
  ◌&&◌, ◌==◌, ◌∙◌, ◌∷◌, ◌≡◌,
}
use metasight.Prelude.Dict.{Dict, DistinctKeys, insert, lookup, lookup-insert}
use metasight.Identity.{User, role}
use metasight.Tokenization.{
  Cipher, ColumnAction, TokenVault, TokenizationService, detokenize, flush_batch, tokenize,
  tokenize_row, value,
}
use metasight.Tokenization.Vault.{IsSound, answers_to, append-nil, entries, tokenize-IsSound}

empty_of_length : {A : Type 0} (xs : List A) → length xs ≡ 0 → xs ≡ []
empty_of_length [] h = refl
empty_of_length (x ∷ xs) h = absurd (omega arith)

-- The policy of the column asks for tokens, and the role is not exempt.
abbrev pub asks_token : User → Option ColumnAction → Bool
asks_token user none = false
asks_token user (some pol) = pol.action == "tokenize" && not (elem (role user) pol.roles_exempt)

-- What becomes of a cell.
abbrev pub CellOf : Bool → TokenizationService → Option String → Option String → Type 0
CellOf flagged s none after = after ≡ none
CellOf flagged s (some v) after = elim flagged [
  | true ↦ (token : String) × (after ≡ some token) × (lookup v s.cache ≡ some token)
  | false ↦ after ≡ some v
]

CellOf-same : (s : TokenizationService) (before : Option String) → CellOf false s before before
CellOf-same s none = refl
CellOf-same s (some v) = refl

-- A column without a cell stays without one.
CellOf-absent :
    (flagged other : Bool) (s : TokenizationService) (before after : Option String)
    → before ≡ none
    → CellOf other s before after
    → CellOf flagged s before after
CellOf-absent flagged other s none after e c = c
CellOf-absent flagged other s (some v) after e c = absurd (ground arith)

module _ (cipher : Cipher) (fresh : ℕ → String) where
  flush_batch-vault :
      (s : TokenizationService)
      → ((flush_batch cipher fresh s).1.vault ≡ entries s)
        × ((flush_batch cipher fresh s).1.tenant_id ≡ s.tenant_id)
  unfolding flush_batch
  flush_batch-vault s = elim (Bool-cases (length s.pending == 0)) [
    | inl nothing ↦
        let e = empty_of_length s.pending (ground arith) in
        rw (nothing, flush_batch, e) (sym (append-nil s.vault), refl)
    | inr something ↦ rw (something, flush_batch) (refl, refl)
  ]

  -- In a sound state, the token that is cached for a value is turned back into the value for an admin
  -- once the batch has been flushed, and two values with the same token are the same.
  pub detokenize_cached :
      (s : TokenizationService) (admin : User)
      → IsSound cipher fresh s
      → role admin ≡ "admin"
      → ((v token : String)
          → lookup v s.cache ≡ some token
          → detokenize cipher fresh token admin (flush_batch cipher fresh s).1 ≡ value v)
        × ((v w token : String)
            → lookup v s.cache ≡ some token
            → lookup w s.cache ≡ some token
            → v ≡ w)
  unfolding detokenize
  detokenize_cached s admin sound is_admin =
      let (vault, tenant) = flush_batch-vault s in
      let admin_role : (role admin == "admin") ≡ true =
        ground (arith, eq_iff (role admin) "admin") in
      (
        λ v token cached.
            let (e, found, encrypted) = sound.held v token cached in
            let flushed : first (answers_to token (flush_batch cipher fresh s).1.tenant_id)
                  (flush_batch cipher fresh s).1.vault
                ≡ some e =
              rw (vault, tenant) found in
            rw (detokenize, admin_role, flushed, encrypted) refl,
        λ v w token cached cached'.
            let (e, found, encrypted) = sound.held v token cached in
            let (e', found', encrypted') = sound.held w token cached' in
            let picked : some e ≡ some e' = sym found ∙ found' in
            let same : e ≡ e' = ground arith in
            sym encrypted ∙ ap (λ x. cipher.decrypt x.encrypted_value) same ∙ encrypted',
      )

  -- Only an admin gets a value back, and only of an entry of the own tenant.
  pub detokenize_guarded :
      (s : TokenizationService) (user : User) (token v : String)
      → detokenize cipher fresh token user s ≡ value v
      → (role user ≡ "admin")
        × ((e : TokenVault) × (first (answers_to token s.tenant_id) s.vault ≡ some e)
            × (e.tenant_id ≡ s.tenant_id)
            × (v ≡ cipher.decrypt e.encrypted_value))
  unfolding detokenize
  detokenize_guarded s user token v h = elim (Bool-cases (role user == "admin")) [
    | inr other ↦ let e = rw (other, detokenize) at h in absurd (ground arith)
    | inl admin ↦ elim (Option-cases (first (answers_to token s.tenant_id) s.vault)) [
      | inl missing ↦ let e = rw (admin, missing, detokenize) at h in absurd (ground arith)
      | inr (x, found) ↦
          let e = rw (admin, found, detokenize) at h in
          let test = first_sound (answers_to token s.tenant_id) s.vault found in
          (ground (arith, eq_iff (role user) "admin"), (x, found, ground arith, ground arith))
    ]
  ]

  module _ (distinct : (i j : ℕ) → fresh i ≡ fresh j → i ≡ j) (user : User) where
    -- In the rows of an answer each cell of a column that asks for tokens is replaced, once, by the
    -- token that is cached for its value, every other cell stays, and the state stays sound.
    pub tokenize_row_lem :
        (col_policies : Dict ColumnAction) (row : Dict String) (s : TokenizationService)
        → DistinctKeys col_policies
        → IsSound cipher fresh s
        → let (row', s') = tokenize_row cipher fresh col_policies user row s in
          IsSound cipher fresh s'
          × ((w token : String) → lookup w s.cache ≡ some token → lookup w s'.cache ≡ some token)
          × ((j : String)
              → CellOf (asks_token user (lookup j col_policies)) s' (lookup j row) (lookup j row'))
    unfolding tokenize_row lookup
    tokenize_row_lem [] row s d sound = (sound, λ w t h. h, λ j. CellOf-same s (lookup j row))
    tokenize_row_lem ((col, pol) ∷ col_policies) row s d sound =
        elim (Bool-cases (asks_token user (some pol))) [
          | inr silent ↦
              let (sound', grows, cells) = tokenize_row_lem col_policies row s d.1 sound in
              rw (silent, tokenize_row)
                (
                  sound',
                  grows,
                  λ j. elim (Bool-cases (col == j)) [
                    | inl same ↦
                        let e : col ≡ j = ground (arith, eq_iff col j) in
                        let gone : lookup j col_policies ≡ none = rw e at d.0 in
                        rw (same, silent) (rw gone at (cells j))
                    | inr another ↦ rw another (cells j)
                  ],
                )
          | inl asks ↦ elim (Option-cases (lookup col row)) [
            | inl absent ↦
                let (sound', grows, cells) = tokenize_row_lem col_policies row s d.1 sound in
                rw (asks, absent, tokenize_row)
                  (
                    sound',
                    grows,
                    λ j. elim (Bool-cases (col == j)) [
                      | inl same ↦
                          let e : col ≡ j = ground (arith, eq_iff col j) in
                          rw same (
                            CellOf-absent (asks_token user (some pol))
                              (asks_token user (lookup j col_policies))
                              (tokenize_row cipher fresh col_policies user row s).1 (lookup j row)
                              (lookup j (tokenize_row cipher fresh col_policies user row s).0)
                              (rw e at absent) (cells j))
                      | inr another ↦ rw another (cells j)
                    ],
                  )
            | inr (cell, present) ↦
                let (token, s₁) = tokenize cipher fresh cell (some col) s in
                let (sound₁, cached, grows₁) =
                  tokenize-IsSound cipher fresh distinct s cell (some col) sound in
                let (sound', grows, cells) =
                  tokenize_row_lem col_policies (insert col token row) s₁ d.1 sound₁ in
                rw (asks, present, tokenize_row)
                  (
                    sound',
                    λ w t h. grows w t (grows₁ w t h),
                    λ j. elim (Bool-cases (col == j)) [
                      | inl same ↦
                          let e : col ≡ j = ground (arith, eq_iff col j) in
                          let gone : lookup j col_policies ≡ none = rw e at d.0 in
                          let here : lookup j row ≡ some cell = rw e at present in
                          rw (same, asks, here)
                            (
                              token,
                              rw (gone, lookup-insert col j token row, same) at (cells j),
                              grows cell token cached,
                            )
                      | inr another ↦
                          rw another (rw (lookup-insert col j token row, another) at (cells j))
                    ],
                  )
          ]
        ]

    -- A cell that was replaced in a row is turned back into its value by an admin, from its token,
    -- once the batch has been flushed.
    pub tokenize_row_roundtrip :
        (col_policies : Dict ColumnAction) (row : Dict String) (s : TokenizationService)
        (admin : User) (j v : String)
        → DistinctKeys col_policies
        → IsSound cipher fresh s
        → role admin ≡ "admin"
        → lookup j row ≡ some v
        → asks_token user (lookup j col_policies) ≡ true
        → (token : String) × (lookup j (tokenize_row cipher fresh col_policies user row s).0
            ≡ some token)
          × (detokenize cipher fresh token admin
                (flush_batch cipher fresh (tokenize_row cipher fresh col_policies user row s).1).1
              ≡ value v)
    tokenize_row_roundtrip col_policies row s admin j v d sound is_admin present asks =
        let (sound', grows, cells) = tokenize_row_lem col_policies row s d sound in
        let (token, after, cached) = rw (asks, present) at (cells j) in
        (
          token,
          after,
          (detokenize_cached (tokenize_row cipher fresh col_policies user row s).1 admin sound'
                is_admin).0
              v token cached,
        )
