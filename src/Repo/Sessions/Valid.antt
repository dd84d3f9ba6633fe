-- ===== src/Repo/Sessions/Valid.antt =====
-- The rows of account_sessions over the writes of the repository
-- (internal/repository/postgres/session_postgres.go).
use follower_bmad.Base.{
  ◌≡◌, refl, true, false, not, ◌&&◌, Bool-cases, inl, inr, Option, none, some, List, [], ◌∷◌, All,
  arith, ◌==◌, any,
}
use follower_bmad.Text.{is_empty}
use follower_bmad.Errors.Code.{ErrorCode, code_text}
use follower_bmad.Errors.Value.{GoError}
use follower_bmad.Domain.Ids.{Uuid, Time}
use follower_bmad.Domain.Session.{
  SessionMetadata, SessionStatus, is_valid, is_valid_session, validate,
}
use follower_bmad.Repo.Table.{find, Distinct, All-update, Distinct-update, find-none-All}
use follower_bmad.Repo.Sessions.{
  SessionAction, metadata_upserted, status_changed, restored, SessionStore, session_key, overwrite,
  inserted, returned, on_conflict, insert_session, upsert, set_status, update_status, set_restored,
  mark_restored,
}

abbrev pub IsValidRow : SessionMetadata → Type 0
IsValidRow m = validate m ≡ none

-- Every row is valid metadata, and no account has two rows.
pub record IsValidStore (s : SessionStore) : Type 0 where
  pub rows : All IsValidRow s.sessions
  pub key : Distinct session_key s.sessions

-- A call of the repository that writes.
pub data SessionCall : Type 0 where
  upsert_call : Option GoError → Time → SessionMetadata → SessionCall
  status_call : Option GoError → Time → Uuid → SessionStatus → ErrorCode → SessionCall
  restored_call : Option GoError → Time → Uuid → SessionCall

abbrev pub after_session_call : SessionCall → SessionStore → SessionStore
after_session_call (upsert_call fault now m) s = (upsert fault now m s).1
after_session_call (status_call fault now id status code) s =
    (update_status fault now id status code s).1
after_session_call (restored_call fault now id) s = (mark_restored fault now id s).1

abbrev pub after_session_calls : List SessionCall → SessionStore → SessionStore
after_session_calls [] s = s
after_session_calls (c ∷ cs) s = after_session_calls cs (after_session_call c s)

returned-IsValidStore :
    (action : SessionAction) (id : Uuid) (f : SessionMetadata → SessionMetadata) (s : SessionStore)
    (o : Option SessionMetadata)
    → ((m : SessionMetadata) → IsValidRow m → IsValidRow (f m))
    → ((m : SessionMetadata) → (f m).account_id ≡ m.account_id)
    → IsValidStore s
    → IsValidStore (returned action id f s o).1
returned-IsValidStore action id f s none keeps same h = h
returned-IsValidStore action id f s (some m) keeps same h = record {
  rows = All-update session_key IsValidRow id f s.sessions (λ m _ v. keeps m v) h.rows;
  key = Distinct-update session_key id f s.sessions same h.key;
}

overwrite-IsValidRow :
    (now : Time) (m old : SessionMetadata)
    → IsValidRow m
    → IsValidRow old
    → IsValidRow (overwrite now m old)
unfolding overwrite validate
overwrite-IsValidRow now m old h v = ground arith

set_restored-IsValidRow :
    (now : Time) (m : SessionMetadata) → IsValidRow m → IsValidRow (set_restored now m)
unfolding validate is_valid code_text
set_restored-IsValidRow now m h = ground arith

set_status-IsValidRow :
    (now : Time) (status : SessionStatus) (code : ErrorCode) (m : SessionMetadata)
    → is_valid status ≡ true
    → (is_valid_session status && not (is_empty (code_text code))) ≡ false
    → IsValidRow m
    → IsValidRow (set_status now status code m)
unfolding validate
set_status-IsValidRow now status code m known clean h = ground arith

on_conflict-IsValidStore :
    (now : Time) (m : SessionMetadata) (s : SessionStore) (o : Option SessionMetadata)
    → find session_key m.account_id s.sessions ≡ o
    → IsValidRow m
    → IsValidStore s
    → IsValidStore (on_conflict now m s o).1
unfolding insert_session inserted overwrite validate
on_conflict-IsValidStore now m s none e v h =
    elim (Bool-cases (any (λ id. id == m.account_id) s.account_ids)) [
      | inl known ↦ rw known (record {
        rows = (v, h.rows);
        key = (find-none-All session_key m.account_id s.sessions e, h.key);
      })
      | inr unknown ↦ rw unknown h
    ]
on_conflict-IsValidStore now m s (some old) e v h =
    returned-IsValidStore metadata_upserted m.account_id (overwrite now m) s _
      (λ x w. overwrite-IsValidRow now m x v w) (λ x. refl) h

upsert-IsValidStore :
    (fault : Option GoError) (now : Time) (m : SessionMetadata) (s : SessionStore)
    → IsValidStore s
    → IsValidStore (upsert fault now m s).1
unfolding upsert
upsert-IsValidStore fault now m s h = ground (arith, on_conflict-IsValidStore now m s _ refl)

update_status-IsValidStore :
    (fault : Option GoError) (now : Time) (id : Uuid) (status : SessionStatus) (code : ErrorCode)
    (s : SessionStore)
    → IsValidStore s
    → IsValidStore (update_status fault now id status code s).1
unfolding update_status
update_status-IsValidStore (some e) now id status code s h = ground arith
update_status-IsValidStore none now id status code s h = elim (Bool-cases (is_valid status)) [
  | inr unknown ↦ rw unknown h
  | inl known ↦ elim (Bool-cases (is_valid_session status && not (is_empty (code_text code)))) [
    | inl dirty ↦ rw (known, dirty) h
    | inr clean ↦
        rw (known, clean)
          (returned-IsValidStore status_changed id (set_status now status code) s _
            (λ m v. set_status-IsValidRow now status code m known clean v) (λ m. refl) h)
  ]
]

after_session_call-IsValidStore :
    (c : SessionCall) (s : SessionStore) → IsValidStore s → IsValidStore (after_session_call c s)
after_session_call-IsValidStore (upsert_call fault now m) s h = upsert-IsValidStore fault now m s h
after_session_call-IsValidStore (status_call fault now id status code) s h =
    update_status-IsValidStore fault now id status code s h
after_session_call-IsValidStore (restored_call (some e) now id) s h = unfold mark_restored in h
after_session_call-IsValidStore (restored_call none now id) s h =
    unfold mark_restored in
    returned-IsValidStore restored id (set_restored now) s _ (set_restored-IsValidRow now)
      (λ x. refl) h

-- Every write of the repository, failed ones included, keeps each row valid metadata and no
-- account with two rows.
pub after_session_calls-IsValidStore :
    (calls : List SessionCall) (s : SessionStore)
    → IsValidStore s
    → IsValidStore (after_session_calls calls s)
after_session_calls-IsValidStore [] s h = h
after_session_calls-IsValidStore (c ∷ cs) s h =
    after_session_calls-IsValidStore cs (after_session_call c s)
      (after_session_call-IsValidStore c s h)
