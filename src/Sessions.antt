-- ===== src/Sessions.antt =====
-- Session recordings. Models upsert_session_recording of backend/app/services/governance_audit.py and
-- its rows of backend/app/models/models.py.
pub mod Upsert
mod Tests
use metasight.Prelude.{
  Bool, List, Option, String, [], first, if◌then◌else◌, nat_eq, none, some, string_eq, text_eq, ℕ,
  ◌&&◌, ◌++◌, ◌==◌, ◌∷◌,
}
use metasight.Prelude.Dict.{Dict}
use metasight.Identity.{User}
use metasight.Audit.{or_text, user_claim}

pub record SessionRecording : Type 0 where
  pub session_id : String
  pub user_email : String
  pub role : String
  pub replay_provider : Option String
  pub recording_url : Option String
  pub started_at : Option ℕ
  pub ended_at : Option ℕ
  pub status : String
  pub details : Dict String
  pub tenant_id : ℕ

-- The keyword arguments.
pub record SessionUpdate : Type 0 where
  pub user : Option User
  pub user_email : Option String
  pub role : Option String
  pub replay_provider : String
  pub recording_url : Option String
  pub started_at : Option ℕ
  pub ended_at : Option ℕ
  pub status : String
  pub details : Option (Dict String)

unfoldable pub is_session : ℕ → String → SessionRecording → Bool
is_session tenant_id session_id r = r.tenant_id == tenant_id && r.session_id == session_id

-- `a or b` of texts and dictionaries that may be null or empty.
abbrev pub or_link : Option String → Option String → Option String
or_link none b = b
or_link (some a) b = if a == "" then b else some a

abbrev pub or_details : Option (Dict String) → Dict String → Dict String
or_details none b = b
or_details (some []) b = b
or_details (some (e ∷ es)) b = e ∷ es

-- `started_at or recording.started_at or _now()`.
abbrev pub or_time : Option ℕ → Option ℕ → ℕ → Option ℕ
or_time (some t) old now = some t
or_time none (some t) now = some t
or_time none none now = some now

-- A new row, before it is filled.
unfoldable pub new_session : ℕ → String → SessionUpdate → SessionRecording
new_session tenant_id session_id u = record {
  session_id = session_id;
  user_email = or_text u.user_email (or_text (user_claim u.user "sub") "system");
  role = or_text u.role (or_text (user_claim u.user "role") "system");
  replay_provider = none;
  recording_url = none;
  started_at = none;
  ended_at = none;
  status = "";
  details = [];
  tenant_id = tenant_id;
}

unfoldable pub fill_session : ℕ → SessionUpdate → SessionRecording → SessionRecording
fill_session now u r = record r {
  replay_provider = or_link (some u.replay_provider) r.replay_provider;
  recording_url = or_link u.recording_url r.recording_url;
  started_at = or_time u.started_at r.started_at now;
  ended_at = u.ended_at;
  status = u.status;
  details = or_details u.details r.details;
}

-- The first row of the session gets the values.
unfoldable pub put_session :
    ℕ → String → SessionRecording → List SessionRecording → List SessionRecording
put_session tenant_id session_id new [] = []
put_session tenant_id session_id new (r ∷ rows) =
    if is_session tenant_id session_id r
    then new ∷ rows
    else r ∷ put_session tenant_id session_id new rows

unfoldable pub upsert_session_recording :
    ℕ
    → ℕ
    → String
    → SessionUpdate
    → List SessionRecording
    → SessionRecording × List SessionRecording
upsert_session_recording now tenant_id session_id u rows =
    elim (first (is_session tenant_id session_id) rows) [
      | none ↦
          (let r = fill_session now u (new_session tenant_id session_id u) in (r, rows ++ r ∷ []))
      | some old ↦ (let r = fill_session now u old in (r, put_session tenant_id session_id r rows))
    ]
