-- ===== src/Policy/Cache.antt =====
-- The cache of decisions. Models backend/app/services/policy_cache.py over a Redis client, which is
-- a parameter; where Redis cannot be reached its reads give nothing and its writes do nothing.
pub mod Invalidate
use metasight.Prelude.{
  List, Option, String, [], if◌then◌else◌, nat_eq, none, show_nat, some, string_eq, text_eq, ℕ, ◌+◌,
  ◌<>◌, ◌==◌, ◌∷◌, ◌≡◌, ◌≢◌, ◌⊎◌,
}
use metasight.Policy.{PolicyDecision}

-- What the code uses of Redis: `get`, `setex` and `delete` of a key, and `scan_iter` of a pattern.

pub record Redis : Type 1 where
  pub Store : Type 0
  pub get : Store → String → Option PolicyDecision
  pub setex : Store → String → ℕ → PolicyDecision → Store
  pub scan : Store → String → List String
  pub delete : Store → String → Store
  -- A read gives what was last written under the key, or nothing once it has expired.
  pub get-setex :
      (s : Store) (k j : String) (ttl : ℕ) (v d : PolicyDecision)
      → get (setex s k ttl v) j ≡ some d
      → (k ≡ j) × (d ≡ v) ⊎ (get s j ≡ some d)
  pub get-delete :
      (s : Store) (k j : String) (d : PolicyDecision)
      → get (delete s k) j ≡ some d
      → (k ≢ j) × (get s j ≡ some d)

abbrev pub policy_ttl : ℕ
policy_ttl = 60

unfoldable pub cache_key : ℕ → String → String → String
cache_key tenant_id table_name user_role =
    "dg:policy:" <> show_nat tenant_id <> ":" <> table_name <> ":" <> user_role

module _ (redis : Redis) where
  open redis use {Store, get, setex, scan, delete}

  unfoldable pub get_cached_policy : ℕ → String → String → Store → Option PolicyDecision
  get_cached_policy tenant_id table_name user_role s =
      get s (cache_key tenant_id table_name user_role)

  unfoldable pub set_cached_policy : ℕ → String → String → PolicyDecision → Store → Store
  set_cached_policy tenant_id table_name user_role decision s =
      setex s (cache_key tenant_id table_name user_role) policy_ttl decision

  -- `table_name or '*'`.
  abbrev pub table_pattern : Option String → String
  table_pattern none = "*"
  table_pattern (some t) = if t == "" then "*" else t

  unfoldable pub delete_all : List String → ℕ → Store → ℕ × Store
  delete_all [] deleted s = (deleted, s)
  delete_all (key ∷ keys) deleted s = delete_all keys (deleted + 1) (delete s key)

  unfoldable pub invalidate_policy_cache : ℕ → Option String → Store → ℕ × Store
  invalidate_policy_cache tenant_id table_name s =
      let key_glob =
        "dg:policy:" <> show_nat tenant_id <> ":" <> table_pattern table_name <> ":*" in
      delete_all (scan s key_glob) 0 s
