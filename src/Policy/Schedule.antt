-- ===== src/Policy/Schedule.antt =====
-- Time-based access. Models _check_time_restrictions of backend/app/services/policy_engine.py.
use metasight.Prelude.{
  List, Option, String, [], elem, if◌then◌else◌, leb, ltb, nat_eq, none, or_else, show_nat, some,
  string_eq, text_eq, ℕ, ◌&&◌, ◌<>◌, ◌∷◌,
}
use metasight.Policy.{Outcome, TimeWindow, ok, permission_error}

-- The reading of the clock in UTC: `%a` of the day, and the hour.

pub record Now : Type 0 where
  pub day_name : String
  pub hour : ℕ

unfoldable pub join_names : List String → String
join_names [] = ""
join_names (d ∷ []) = d
join_names (d ∷ e ∷ days) = d <> ", " <> join_names (e ∷ days)

unfoldable pub wrong_day : Now → TimeWindow → String
wrong_day now w =
    "Access denied: today ("
    <> now.day_name
    <> ") is not in the allowed schedule ("
    <> join_names w.allowed_days
    <> ")."

unfoldable pub wrong_hour : Now → ℕ → ℕ → String
wrong_hour now start_h end_h =
    "Access denied: current hour ("
    <> show_nat now.hour
    <> ":00 UTC) is outside allowed window ("
    <> show_nat start_h
    <> ":00–"
    <> show_nat end_h
    <> ":00 UTC)."

-- Only a list of two hours is a window.
unfoldable pub check_hours : Now → List ℕ → Outcome (Unit {0})
check_hours now (start_h ∷ end_h ∷ []) =
    if leb start_h now.hour && ltb now.hour end_h
    then ok tt
    else permission_error (wrong_hour now start_h end_h)
check_hours now hours = ok tt

unfoldable pub check_time_restrictions : Now → TimeWindow → Outcome (Unit {0})
check_time_restrictions now w = elim w.allowed_days [
  | [] ↦ check_hours now w.allowed_hours
  | d ∷ days ↦
      if elem now.day_name (d ∷ days)
      then check_hours now w.allowed_hours
      else permission_error (wrong_day now w)
]

-- The check as `_from_rule` makes it: not for the roles that are exempt, which are the admins by
-- default, and not without a schedule.
unfoldable pub check_schedule : Now → Option TimeWindow → String → Outcome (Unit {0})
check_schedule now none user_role = ok tt
check_schedule now (some w) user_role =
    if elem user_role (or_else w.exempt_roles ("admin" ∷ []))
    then ok tt
    else check_time_restrictions now w
