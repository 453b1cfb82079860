-- ===== src/Sessions/Tests.antt =====
-- Runs of upsert_session_recording of backend/app/services/governance_audit.py, and the theorem at a
-- concrete input.
use metasight.Prelude.{[], none, refl, some, ◌∷◌, ◌≡◌}
use metasight.Prelude.Dict.{lookup}
use metasight.Sessions.{
  SessionRecording, SessionUpdate, fill_session, is_session, new_session, put_session,
  upsert_session_recording,
}

program : Unit {0}
unfolding upsert_session_recording put_session fill_session new_session is_session lookup
program = tt

abbrev start : SessionUpdate
start = record {
  user = some (record {
    tenant_id = 1;
    department_id = none;
    claims = ("sub", "ana@x.io") ∷ ("role", "analyst") ∷ [];
  });
  user_email = none;
  role = none;
  replay_provider = "manual";
  recording_url = none;
  started_at = none;
  ended_at = none;
  status = "active";
  details = none;
}

abbrev stop : SessionUpdate
stop = record start {
  user = none;
  replay_provider = "";
  recording_url = some "s3://x";
  ended_at = some 90;
  status = "closed";
}

abbrev opened : SessionRecording
opened = record {
  session_id = "s1";
  user_email = "ana@x.io";
  role = "analyst";
  replay_provider = some "manual";
  recording_url = none;
  started_at = some 50;
  ended_at = none;
  status = "active";
  details = [];
  tenant_id = 1;
}

opens : upsert_session_recording 50 1 "s1" start [] ≡ (opened, opened ∷ [])
unfolding program
opens = refl

closes :
    (upsert_session_recording 90 1 "s1" stop (opened ∷ [])).0
    ≡ record opened { recording_url = some "s3://x"; ended_at = some 90; status = "closed" }
unfolding program
closes = refl
