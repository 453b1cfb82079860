-- ===== src/Lib.antt =====
-- MetaSight: a gateway that lets people query databases under access policies. A query's tables are
-- given to the policy engine; columns are denied, masked or tokenized; what is masked is rewritten in
-- the rows of the answer; a query of critical risk waits for an admin's approval.
--
-- The library has a file for each part, with child modules for what is proved of it. Paths are from
-- the root of the repository.
--
-- - Prelude: notation, equality with a Boolean test, lists and texts over the native numbers,
--   dictionaries in the order of insertion (Prelude/Dict).
-- - Http: HTTPException as a value, and handlers as results.
-- - Identity: the claims of a token and the guards of backend/app/core/deps.py (require_admin,
--   require_superadmin).
-- - Audit: record_data_change and record_privileged_activity of
--   backend/app/services/governance_audit.py, which return the log with the new row.
-- - Approval: backend/app/api/approvals.py. The state Db holds the rows of query_approvals and the two
--   logs; create_approval_request, approve_request, reject_request, validate_approval_token,
--   list_approvals and list_my_approvals are its operations. Approval/Workflow has the handlers as
--   a step relation and its reachable states; Approval/Token, Approval/Listing and Approval/Liveness
--   are about tokens, listings and the whole course of a request.
-- - Mask, Masking: backend/app/services/masking.py. Mask/Scan has the string functions and regular
--   expressions that the masks use, Mask/Partial and Mask/Full one function for each mask, Mask/Infer
--   the guess of a kind from a column's name; Masking the dispatch tables, mask_value and mask_row.
-- - Sessions: upsert_session_recording of backend/app/services/governance_audit.py.
-- - Json, Settings: backend/app/services/settings_service.py over JSON objects as ordered fields;
--   Settings/Public is get_public_settings.
-- - Policy: backend/app/services/policy_engine.py and policy_cache.py. Policy/Glob is the wildcard
--   match, Policy/Attributes the placeholders in row filters, Policy/Schedule the time windows,
--   Policy/Rule the decision from a rule, Policy/Auto that from scanned columns, Policy/Cache the
--   cache, and Policy/Decide puts these together as PolicyEngine.decide does.
-- - Risk: backend/app/services/risk_scorer.py and the record RewriteMeta of
--   backend/app/rewriters/sql_rewriter.py. Points of factors are hundredths, scores tenths.
-- - Gate: step 5 of execute_query_endpoint in backend/app/api/query.py, where a critical query needs an
--   approved request.
-- - Tokenization: backend/app/services/tokenization.py, the request's cache, its buffer and the vault.
-- - Mongo: backend/app/rewriters/mongo_rewriter.py, filters and projections as dictionaries.
-- - Prepare: backend/app/services/gateway_prepare.py, which puts the settings, the engine, the masks and
--   the rewriters together for a gateway; Prepare/Dialect and Prepare/Combine are its helpers,
--   Prepare/Rewriting puts the SQL rewriter of Rewriter in the place of the interface.
--
-- - Sql: the syntax trees of sqlglot, by class and args, as far as the rewriter looks into them.
-- - Rewrite: the private methods of SQLRewriter in backend/app/rewriters/sql_rewriter.py, which rewrite
--   one SELECT: Rewrite.antt has _resolve_action, _build_alias_map and _expand_stars,
--   Rewrite/Projections _rewrite_projections, Rewrite/Filters _inject_row_filters_multi and
--   _build_condition, and Rewrite/Nested _rewrite_node with its walk over nested SELECTs. What the
--   database reads in a WHERE clause is its text: Rewrite/Printed has the alternatives and conjuncts of a
--   condition as it is printed, Rewrite/Conditions what the condition of a filter says.
-- - Hardening: backend/app/rewriters/hardening.py; Hardening.antt has the checks on the tree,
--   Hardening/Patterns the two regular expressions, Hardening/Cleaning harden_sql and its steps.
-- - Rewriter: _guard_sql, get_tables, verify_no_column_leak and rewrite_with_meta, which put these
--   together.
--
-- - Auth: backend/app/api/auth.py. Auth.antt has the rows, the payload of a token and the count of failed
--   logins (_is_locked_out, _record_attempt); Auth/Login has login, setup, create_access_token and
--   get_current_user, Auth/Totp the handlers under /auth/mfa.
-- - Rules: backend/app/api/policies.py over the rules, the trail and the cache; Rules/Handlers has
--   list_policies, create_policy, update_policy and delete_policy, Rules/Reach these as a step relation.
-- - Execute: backend/app/api/query.py. Execute.antt is step 7 of execute_query_endpoint, from the rows that
--   the driver returns to those of the answer; Execute/Sql has _resolve_table_policies and the whole
--   course of an SQL query (the driver is a parameter).
--
-- Parts meet as in the code: the engine reads the settings and the cache, the approval handlers write
-- the audit log, the guards of Identity stand before the handlers, the gate reads the risk and runs the
-- approval handlers, and a preparation threads the state of the cache through the engine's decisions.
--
-- Parameters, as the code is not in the repository: the clock (a function from the number of the
-- reading within one request to microseconds), new keys and tokens, SQL's ILIKE, the cipher of the vault
-- (decrypting what was encrypted gives the text), which way a tie is rounded, and the Redis client (a
-- record Policy.Cache.Redis of operations with the two laws that the code relies on: a read gives
-- the last write or nothing, and a deleted key cannot be read). Policy/Samples has a cache in memory
-- that satisfies them. Of sqlglot and unicodedata, Hardening.Cleaning.Sqlglot has the parser, the
-- printer and the normal form NFKC. The passwords, tokens and one-time codes are Auth.Crypto, with
-- the law that a token gives its claims until it expires; Rules.RuleJson has Python's equality and text of
-- JSON values. A syntax tree is data: a node has a class and its children by arg, and
-- find_all lists the nodes of a class below a node; here in the order of the text.
--
-- Bounds: texts are lists of character codes; lower and upper case, white space and \w are those of
-- ASCII. Times are numbers of microseconds. The walk over nested
-- SELECTs is given their depth as fuel (Rewrite/Fuel is about it); every other loop is structural
-- recursion.
-- The reserved keys `__schedule__` and `__tags__` of column_policies are fields of their own. Numbers
-- in settings are natural.
--
-- The string with given characters is a parameter of Execute, since a token is made of a string.
--
-- Simplified: query.py and gateway_prepare.py turn any other exception of the engine into status 500,
-- which is left out, as is the text of a blocked query's audit row. A document query is given by its
-- collection, filter and projection. The union of two sets of columns is a list without repetitions.
-- A claim that is missing is an empty text where the code reads it with a default.
--
-- Texts of errors and warnings leave out what is printed of a tree or of a match.
--
-- Left out of what is modelled: the rate limit in front of the login, the picture of the enrolment code,
-- and the copy of a rule into a PostgreSQL source.
--
-- Not modelled: the interface of the rewriter for one table (SQLRewriter.rewrite), document sources
-- and the audit rows in execute_query_endpoint, the other endpoints of query.py, the scanners and drivers, the security checker, agents,
-- the endpoints for catalogs and administration, OIDC, migrations, the Go programs and the frontend. Logging is left out.
pub mod Prelude
pub mod Http
pub mod Identity
pub mod Audit
pub mod Approval
pub mod Mask
pub mod Masking
pub mod Json
pub mod Settings
pub mod Policy
pub mod Risk
pub mod Gate
pub mod Tokenization
pub mod Mongo
pub mod Prepare
pub mod Sessions
pub mod Sql
pub mod Rewrite
pub mod Hardening
pub mod Rewriter
pub mod Auth
pub mod Rules
pub mod Execute
