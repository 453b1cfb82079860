-- ===== src/Policy/Cache/Invalidate.antt =====
-- What is left of the cache after an invalidation.
-- About invalidate_policy_cache of backend/app/services/policy_cache.py.
use metasight.Prelude.{
  List, Option, String, [], arith, elem, eq_iff, false, length, nat_eq, refl, show_nat, some,
  string_eq, text_eq, ℕ, ◌+◌, ◌<>◌, ◌∙◌, ◌∷◌, ◌≡◌,
}
use metasight.Policy.{PolicyDecision}
use metasight.Policy.Cache.{Redis, delete_all, invalidate_policy_cache, table_pattern}

module _ (redis : Redis) where
  open redis use {Store, get, scan, delete, get-delete}

  delete_all-count :
      (keys : List String) (n : ℕ) (s : Store) → (delete_all redis keys n s).0 ≡ n + length keys
  unfolding delete_all
  delete_all-count [] n s = ground arith
  delete_all-count (key ∷ keys) n s = delete_all-count keys (n + 1) (delete s key) ∙ omega arith

  delete_all-get :
      (keys : List String) (n : ℕ) (s : Store) (j : String) (d : PolicyDecision)
      → get (delete_all redis keys n s).1 j ≡ some d
      → (elem j keys ≡ false) × (get s j ≡ some d)
  unfolding delete_all
  delete_all-get [] n s j d h = (refl, h)
  delete_all-get (key ∷ keys) n s j d h =
      let (rest, before) = delete_all-get keys (n + 1) (delete s key) j d h in
      let (other, kept) = get-delete s key j d before in (ground (arith, eq_iff j key), kept)

  -- After an invalidation no key that the scan of the pattern reported can be read, what can still
  -- be read is as it was, and the number returned is that of the keys deleted.
  pub invalidate_policy_cache_lem :
      (tenant_id : ℕ) (table_name : Option String) (s : Store)
      → let keys =
          scan s
            ("dg:policy:" <> show_nat tenant_id <> ":" <> table_pattern redis table_name <> ":*") in
        ((invalidate_policy_cache redis tenant_id table_name s).0 ≡ length keys)
        × ((j : String) (d : PolicyDecision)
            → get (invalidate_policy_cache redis tenant_id table_name s).1 j ≡ some d
            → (elem j keys ≡ false) × (get s j ≡ some d))
  unfolding invalidate_policy_cache
  invalidate_policy_cache_lem tenant_id table_name s =
      let keys =
        scan s
          ("dg:policy:" <> show_nat tenant_id <> ":" <> table_pattern redis table_name <> ":*") in
      (delete_all-count keys 0 s ∙ omega arith, λ j d h. delete_all-get keys 0 s j d h)
