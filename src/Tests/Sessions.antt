-- ===== src/Tests/Sessions.antt =====
-- The table account_sessions with one account.
use follower_bmad.Base.{◌≡◌, refl, pos, true, none, List, [], ◌∷◌}
use follower_bmad.Text.{codes}
use follower_bmad.Errors.Code.{code_text, session_payload_missing}
use follower_bmad.Errors.Result.{ok}
use follower_bmad.Domain.Ids.{no_code}
use follower_bmad.Domain.Session.{SessionMetadata, valid, invalid, validate, is_valid}
use follower_bmad.Repo.Table.{find}
use follower_bmad.Repo.Sessions.{SessionStore, metadata_upserted, inserted, insert_session, upsert}
use follower_bmad.Repo.Sessions.Valid.{
  IsValidStore, SessionCall, upsert_call, status_call, restored_call, after_session_calls,
  after_session_calls-IsValidStore,
}

abbrev session : SessionMetadata
session = record {
  account_id = 1;
  revision = pos 4;
  status = valid;
  object_key = codes "ann/latest.json";
  error_code = no_code;
  last_restored_at = none;
  created_at = 0;
  updated_at = 0;
}

abbrev pub empty_table : SessionStore
empty_table = record { sessions = []; account_ids = 1 ∷ []; audit_works = true; audit = [] }

abbrev stored_session : SessionMetadata
stored_session = record session { created_at = 7; updated_at = 7 }

abbrev one_session : SessionStore
one_session = record empty_table {
  sessions = stored_session ∷ [];
  audit = (metadata_upserted, 1) ∷ [];
}

upserts : upsert none 7 session empty_table ≡ (ok stored_session, one_session)
unfolding upsert insert_session inserted validate is_valid code_text find
upserts = refl

abbrev calls : List SessionCall
calls =
    upsert_call none 7 session
    ∷ status_call none 8 1 invalid session_payload_missing
    ∷ restored_call none 9 1
    ∷ []

after_session_calls-IsValidStore_example : IsValidStore (after_session_calls calls empty_table)
after_session_calls-IsValidStore_example =
    after_session_calls-IsValidStore calls empty_table (record { rows = tt; key = tt })
