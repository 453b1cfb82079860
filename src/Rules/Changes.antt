-- ===== src/Rules/Changes.antt =====
-- What a rule that was updated leaves behind: the row, its trail and the cache
-- (update_policy of backend/app/api/policies.py).
use mathlib.Core.List.{append_assoc, map-append, reverse, reverse-append}
use metasight.Prelude.{
  Bool, Bool-cases, List, Option, Option-cases, String, [], ap, arith, codes, elem, false, first,
  first_sound, if◌then◌else◌, inl, inr, map, nat_eq, refl, show_nat, some, string_eq, sym, text_eq,
  ℕ, ◌++◌, ◌+◌, ◌<>◌, ◌==◌, ◌∙◌, ◌∷◌, ◌≡◌, ◌≢◌,
}
use metasight.Http.{Result-cases, ok}
use metasight.Identity.{User, has_role, require_admin}
use metasight.Audit.{DataChangeAudit, or_text, record_data_change, user_claim}
use metasight.Policy.{PolicyDecision, PolicyRule, ok}
use metasight.Policy.Cache.{Redis, table_pattern}
use metasight.Policy.Cache.Invalidate.{invalidate_policy_cache_lem}
use metasight.Rules.Handlers.{update_policy}
use metasight.Rules.{
  Changed, RuleDb, RuleJson, RuleUpdate, change_of, changed_columns, changes_logged, get_or_404,
  is_rule, save_rule, updated_rule,
}

-- What a row of the trail says of a change, and of whom.
abbrev pub Written : Type 0
Written = String × Option String × Option String × Option String × String × ℕ

abbrev pub written : DataChangeAudit → Written
written a = (a.column_name, a.old_value, a.new_value, a.record_pk, a.changed_by, a.tenant_id)

abbrev pub to_write : User → PolicyRule → Changed → Written
to_write user r c = (
  c.column,
  some c.old_value,
  some c.new_value,
  some (show_nat r.id),
  or_text (user_claim (some user) "sub") "system",
  user.tenant_id,
)

-- The rows are added in the order of the changes, the last one first.
changes_logged-rows :
    (clock : ℕ → ℕ) (user : User) (r : PolicyRule) (n : ℕ) (changed : List Changed)
    (log : List DataChangeAudit)
    → (rows : List DataChangeAudit) × (changes_logged clock user r n changed log ≡ rows ++ log)
      × (map written rows ≡ reverse (map (to_write user r) changed))
unfolding changes_logged record_data_change
changes_logged-rows clock user r n [] log = ([], refl, refl)
changes_logged-rows clock user r n (c ∷ changed) log =
    let row = record_data_change (clock n) user.tenant_id (
      change_of user r c.column (some c.old_value) (some c.new_value) (codes "UPDATE")
        (("resource", some r.resource) ∷ ("database_name", some r.database_name) ∷ [])) in
    let (rows, logged, said) = changes_logged-rows clock user r (n + 1) changed (row ∷ log) in
    (
      rows ++ row ∷ [],
      logged ∙ sym (append_assoc rows (row ∷ []) log),
      map-append written rows (row ∷ [])
          ∙ ap (λ l. l ++ written row ∷ []) said
          ∙ sym (reverse-append (to_write user r c ∷ []) (map (to_write user r) changed)),
    )

abbrev pub has_id : ℕ → PolicyRule → Bool
has_id id r = r.id == id

first-save_rule :
    (new : PolicyRule) (other : ℕ) (rules : List PolicyRule)
    → (new.id == other) ≡ false
    → first (has_id other) (save_rule new rules) ≡ first (has_id other) rules
unfolding save_rule
first-save_rule new other [] h = refl
first-save_rule new other (r ∷ rules) h = elim (Bool-cases (r.id == new.id)) [
  | inl same ↦ let e : r.id ≡ new.id = ground arith in rw same (rw e (rw h refl))
  | inr apart ↦
      rw apart
        (ap (λ rest. if r.id == other then some r else rest) (first-save_rule new other rules h))
]

-- The row with the key of a rule that exists is written.
first-saved :
    (p : PolicyRule → Bool) (new old : PolicyRule) (rules : List PolicyRule)
    → first p rules ≡ some old
    → old.id ≡ new.id
    → first (has_id new.id) (save_rule new rules) ≡ some new
unfolding save_rule
first-saved p new old [] h e = absurd (ground arith)
first-saved p new old (r ∷ rules) h e = elim (Bool-cases (r.id == new.id)) [
  | inl same ↦ rw same (ground arith)
  | inr apart ↦ elim (Bool-cases (p r)) [
    | inl here ↦ let k : r ≡ old = ground arith in let i = ap (λ x. x.id) k in absurd (ground arith)
    | inr later ↦ rw apart (rw apart (first-saved p new old rules (ground arith) e))
  ]
]

get_or_404-ok :
    (policy_id tenant_id : ℕ) (rules : List PolicyRule) {r : PolicyRule}
    → get_or_404 policy_id tenant_id rules ≡ ok r
    → (r.id ≡ policy_id) × (r.tenant_id ≡ tenant_id)
unfolding get_or_404
get_or_404-ok policy_id tenant_id rules {r} h =
    elim (Option-cases (first (is_rule policy_id tenant_id) rules)) [
      | inl absent ↦ absurd (ground arith)
      | inr (q, present) ↦
          let e : q ≡ r = ground arith in
          let found = first_sound (is_rule policy_id tenant_id) rules {x = q} present in
          rw (← e) (ground arith, ground arith)
    ]

get_or_404-first :
    (policy_id tenant_id : ℕ) (rules : List PolicyRule) {r : PolicyRule}
    → get_or_404 policy_id tenant_id rules ≡ ok r
    → first (is_rule policy_id tenant_id) rules ≡ some r
unfolding get_or_404
get_or_404-first policy_id tenant_id rules {r} h =
    elim (Option-cases (first (is_rule policy_id tenant_id) rules)) [
      | inl absent ↦ absurd (ground arith)
      | inr (q, present) ↦ let e : q ≡ r = ground arith in present ∙ ap some e
    ]

module _ (redis : Redis) (json : RuleJson) (clock : ℕ → ℕ) (policy_id : ℕ) (payload : RuleUpdate)
    (user : User) where
  open redis use {Store, get, scan}

  -- An update that succeeds is an admin's, of a rule of the admin's own tenant that exists; the rule
  -- with the columns of the payload is returned and stored under its key, the rows with other keys can
  -- be read as before, the trail is longer by one row for each column that differs, with its old and
  -- its new value and the admin's name, and of the cached decisions those that the scan for the rule's
  -- resource reports cannot be read any more and the others are as they were.
  pub update_policy_lem :
      (db : RuleDb Store) (other : ℕ) {r : PolicyRule}
      → other ≢ policy_id
      → (update_policy redis json clock policy_id payload user db).0 ≡ ok r
      → let db' = (update_policy redis json clock policy_id payload user db).1 in
        let keys = scan db.cache (
          "dg:policy:"
          <> show_nat user.tenant_id
          <> ":"
          <> table_pattern redis (some r.resource)
          <> ":*") in
        (require_admin user ≡ ok user)
        × (old : PolicyRule) × (get_or_404 policy_id user.tenant_id db.rules ≡ ok old)
        × (old.tenant_id ≡ user.tenant_id)
        × (r ≡ updated_rule payload old)
        × (first (has_id other) db'.rules ≡ first (has_id other) db.rules)
        × (first (has_id policy_id) db'.rules ≡ some r)
        × (rows : List DataChangeAudit) × (db'.data_changes ≡ rows ++ db.data_changes)
        × (map written rows ≡ reverse (map (to_write user r) (changed_columns json old r)))
        × ((key : String) (d : PolicyDecision)
            → get db'.cache key ≡ some d
            → (elem key keys ≡ false) × (get db.cache key ≡ some d))
  unfolding update_policy require_admin updated_rule
  update_policy_lem db other {r} apart h =
      elim (Bool-cases (has_role user ("admin" ∷ "superadmin" ∷ []))) [
        | inr refused ↦ absurd (ground arith)
        | inl admin ↦ elim (Result-cases (get_or_404 policy_id user.tenant_id db.rules)) [
          | inr (e, missing) ↦ absurd (ground arith)
          | inl (old, found) ↦
              let new = updated_rule payload old in
              let e : new ≡ r = ground arith in
              let (numbered, owned) =
                get_or_404-ok policy_id user.tenant_id db.rules {r = old} found in
              let (rows, logged, said) =
                changes_logged-rows clock user new 0 (changed_columns json old new)
                  db.data_changes in
              rw (admin, found, update_policy, ← e)
                (
                  refl,
                  old,
                  refl,
                  owned,
                  refl,
                  first-save_rule new other db.rules (ground arith),
                  rw (← numbered) (
                      first-saved (is_rule policy_id user.tenant_id) new old db.rules
                        (get_or_404-first policy_id user.tenant_id db.rules found) refl),
                  rows,
                  logged,
                  said,
                  (invalidate_policy_cache_lem redis user.tenant_id (some new.resource) db.cache).1,
                )
        ]
      ]
