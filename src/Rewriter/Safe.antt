-- ===== src/Rewriter/Safe.antt =====
-- What a query that was rewritten projects (rewrite_with_meta of
-- backend/app/rewriters/sql_rewriter.py).
use metasight.Prelude.{
  All, All-append, Bool-cases, arith, inl, inr, nat_eq, refl, string_eq, suc, text_eq, ℕ, ◌==◌,
  ◌||◌, ◌≡◌, ◌≤◌,
}
use metasight.Prelude.Dict.{Dict}
use metasight.Sql.{Children, Expr, child, depth, depth_in, end, item, node, select, set_op}
use metasight.Rewrite.{Policy}
use metasight.Rewrite.Everywhere.{SafeTree}
use metasight.Hardening.{branches_in, collect_select_branches}
use metasight.Hardening.Cleaning.{Checked, done, value_error, ◌>>=◌}

abbrev Shallow : ℕ → Children → Type 0
Shallow n cs = suc (depth_in cs) ≤ n

mutual
  unfolding collect_select_branches depth

  collect-Shallow : (n : ℕ) (e : Expr) → depth e ≤ n → All (Shallow n) (collect_select_branches e)
  collect-Shallow n (node select cs) h = (h, tt)
  collect-Shallow n (node (set_op op) cs) h = branches-Shallow n cs h
  collect-Shallow n (node _ cs) h = tt

  branches-Shallow : (n : ℕ) (cs : Children) → depth_in cs ≤ n → All (Shallow n) (branches_in cs)
  branches-Shallow n end h = tt
  branches-Shallow n (item e cs) h = branches-Shallow n cs (omega arith)
  branches-Shallow n (child key e cs) h =
      let below = branches-Shallow n cs (omega arith) in
      elim (Bool-cases (key == "this" || key == "expression")) [
        | inl t ↦ rw t (
            All-append (Shallow n) (collect_select_branches e) (branches_in cs)
              (collect-Shallow n e (omega arith)) below)
        | inr t ↦ rw t below
      ]

-- The SELECTs that are branches of set operations, without parentheses around them, are safe, each
-- with all that is nested in it.
abbrev pub SafeBranches : Dict Policy → Expr → Type 0
SafeBranches policies tree =
    All (λ cs. SafeTree policies (node select cs)) (collect_select_branches tree)

-- A SELECT is safe at every depth; a set operation as far as its branches are rewritten. There is no
-- other tree.
abbrev pub SafeQuery : Dict Policy → Expr → Type 0
SafeQuery policies (node select cs) = SafeTree policies (node select cs)
SafeQuery policies (node (set_op op) cs) = SafeBranches policies (node (set_op op) cs)
SafeQuery policies (node _ cs) = ⊥

pub >>=-eq-done :
    {A B : Type 0} (m : Checked A) (f : A → Checked B) {b : B}
    → (m >>= f) ≡ done b
    → (a : A) × (m ≡ done a) × (f a ≡ done b)
>>=-eq-done (done a) f h = (a, refl, h)
>>=-eq-done (value_error e) f h = cc
