-- ===== src/Tokenization/Vault.antt =====
-- What the vault holds, and that tokens can be turned back.
-- About tokenize, flush_batch and detokenize of backend/app/services/tokenization.py.
use metasight.Prelude.{
  All, All-append, Bool, Bool-cases, List, Option, Option-cases, String, [], ap, arith, eq_iff,
  eq_of_ne, first, inl, inr, nat_eq, none, refl, some, string_eq, text_eq, true, ℕ, ◌&&◌, ◌++◌, ◌+◌,
  ◌==◌, ◌∙◌, ◌∷◌, ◌≡◌, ◌≢◌, ◌≤◌,
}
use metasight.Prelude.Dict.{insert, lookup, lookup-insert}
use metasight.Tokenization.{Cipher, TokenVault, TokenizationService, tokenize}

first-append :
    (p : TokenVault → Bool) (xs ys : List TokenVault)
    → first p (xs ++ ys) ≡ (elim (first p xs) [ none ↦ first p ys | some x ↦ some x ])
first-append p [] ys = refl
first-append p (x ∷ xs) ys = elim (Bool-cases (p x)) [
  | inl here ↦ rw here refl
  | inr later ↦ rw later (first-append p xs ys)
]

append_assoc : {A : Type 0} (xs ys zs : List A) → xs ++ (ys ++ zs) ≡ (xs ++ ys) ++ zs
append_assoc [] ys zs = refl
append_assoc (x ∷ xs) ys zs = ap (λ l. x ∷ l) (append_assoc xs ys zs)

pub append-nil : {A : Type 0} (xs : List A) → xs ++ [] ≡ xs
append-nil [] = refl
append-nil (x ∷ xs) = ap (λ ys. x ∷ ys) (append-nil xs)

-- The entry that a lookup of a token finds.
abbrev pub answers_to : String → ℕ → TokenVault → Bool
answers_to token tenant_id e = e.token == token && e.tenant_id == tenant_id

-- The table as it is once the buffer has been flushed.
abbrev pub entries : TokenizationService → List TokenVault
entries s = s.vault ++ s.pending

module _ (cipher : Cipher) (fresh : ℕ → String) where
  abbrev pub Holds : TokenizationService → String → String → Type 0
  Holds s v token =
      (e : TokenVault) × (first (answers_to token s.tenant_id) (entries s) ≡ some e)
      × (cipher.decrypt e.encrypted_value ≡ v)

  -- No entry has a token that is still to be drawn, and each cached token has an entry for its value.
  pub record IsSound (s : TokenizationService) : Type 0 where
    pub unborn : All (λ e. (k : ℕ) → s.drawn ≤ k → e.token ≢ fresh k) (entries s)
    pub held : (v token : String) → lookup v s.cache ≡ some token → Holds s v token

  unanswered :
      (token : String) (tenant_id : ℕ) (es : List TokenVault)
      → All (λ e. e.token ≢ token) es
      → first (answers_to token tenant_id) es ≡ none
  unanswered token tenant_id [] h = refl
  unanswered token tenant_id (e ∷ es) h =
      rw (eq_of_ne e.token token h.0) (unanswered token tenant_id es h.1)

  unborn-All :
      (s : TokenizationService) (es : List TokenVault)
      → All (λ e. (k : ℕ) → s.drawn ≤ k → e.token ≢ fresh k) es
      → All (λ e. e.token ≢ fresh s.drawn) es
  unborn-All s [] h = tt
  unborn-All s (e ∷ es) h = (h.0 s.drawn (omega arith), unborn-All s es h.1)

  later-All :
      (n m : ℕ) (es : List TokenVault)
      → n ≤ m
      → All (λ e. (k : ℕ) → n ≤ k → e.token ≢ fresh k) es
      → All (λ e. (k : ℕ) → m ≤ k → e.token ≢ fresh k) es
  later-All n m [] le h = tt
  later-All n m (e ∷ es) le h = (λ k l. h.0 k (omega arith), later-All n m es le h.1)

  module _ (distinct : (i j : ℕ) → fresh i ≡ fresh j → i ≡ j) where
    -- The state after a value that is not cached.
    pub drawn-IsSound :
        (s : TokenizationService) (v : String) (column_name : Option String)
        → lookup v s.cache ≡ none
        → IsSound s
        → IsSound (tokenize cipher fresh v column_name s).1
          × (lookup v (tokenize cipher fresh v column_name s).1.cache
              ≡ some (tokenize cipher fresh v column_name s).0)
    unfolding tokenize
    drawn-IsSound s v column_name new sound =
        rw (new, tokenize) (sound', (lookup-insert v v (fresh s.drawn) s.cache ∙ rw itself refl))
      where
        entry : TokenVault
        entry = record {
          token = fresh s.drawn;
          encrypted_value = cipher.encrypt s.drawn v;
          column_name = column_name;
          tenant_id = s.tenant_id;
        }

        s' : TokenizationService
        s' = record s {
          pending = s.pending ++ entry ∷ [];
          cache = insert v (fresh s.drawn) s.cache;
          drawn = s.drawn + 1;
        }

        itself : (v == v) ≡ true
        itself = ground (arith, eq_iff v v)

        regrouped : entries s' ≡ entries s ++ entry ∷ []
        regrouped = append_assoc s.vault s.pending (entry ∷ [])

        unanswered' : first (answers_to (fresh s.drawn) s.tenant_id) (entries s) ≡ none
        unanswered' =
            unanswered (fresh s.drawn) s.tenant_id (entries s)
              (unborn-All s (entries s) sound.unborn)

        own : (entry.token == fresh s.drawn) ≡ true
        own = ground (arith, eq_iff (fresh s.drawn) (fresh s.drawn))

        same_tenant : (s.tenant_id == s.tenant_id) ≡ true
        same_tenant = ground arith

        held_new : Holds s' v (fresh s.drawn)
        held_new = (
          entry,
          rw
              (
                regrouped,
                first-append (answers_to (fresh s.drawn) s.tenant_id) (entries s) (entry ∷ []),
                unanswered',
                own,
                same_tenant,
              )
              refl,
          cipher.decrypt-encrypt s.drawn v,
        )

        held_old : (w token : String) → Holds s w token → Holds s' w token
        held_old w token (e, found, encrypted) = (
          e,
          rw
              (
                regrouped,
                first-append (answers_to token s.tenant_id) (entries s) (entry ∷ []),
                found,
              )
              refl,
          encrypted,
        )

        sound' : IsSound s'
        sound' = record {
          unborn = rw regrouped (
              All-append (λ e. (k : ℕ) → s.drawn + 1 ≤ k → e.token ≢ fresh k) (entries s)
                (entry ∷ [])
                (later-All s.drawn (s.drawn + 1) (entries s) (omega arith) sound.unborn)
                (λ k le same. let e = distinct s.drawn k same in absurd (omega arith), tt));
          held = λ w token cached. elim (Bool-cases (v == w)) [
            | inl same ↦
                let e : v ≡ w = ground (arith, eq_iff v w) in
                let f : fresh s.drawn ≡ token =
                  ground (arith, lookup-insert v w (fresh s.drawn) s.cache) in
                rw (← e, ← f) held_new
            | inr another ↦
                held_old w token
                  (sound.held w token (ground (arith, lookup-insert v w (fresh s.drawn) s.cache)))
          ];
        }

    -- Tokenizing keeps the state sound, gives the token that is then cached for the value, and
    -- forgets no token.
    pub tokenize-IsSound :
        (s : TokenizationService) (v : String) (column_name : Option String)
        → IsSound s
        → IsSound (tokenize cipher fresh v column_name s).1
          × (lookup v (tokenize cipher fresh v column_name s).1.cache
              ≡ some (tokenize cipher fresh v column_name s).0)
          × ((w token : String)
              → lookup w s.cache ≡ some token
              → lookup w (tokenize cipher fresh v column_name s).1.cache ≡ some token)
    unfolding tokenize
    tokenize-IsSound s v column_name sound = elim (Option-cases (lookup v s.cache)) [
      | inr (token, old) ↦ rw (old, tokenize) (sound, old, λ w t h. h)
      | inl new ↦
          let (sound', cached) = drawn-IsSound s v column_name new sound in
          (
            sound',
            cached,
            λ w token h.
                rw (new, tokenize)
                  (ground (arith, lookup-insert v w (fresh s.drawn) s.cache, eq_iff v w)),
          )
    ]
