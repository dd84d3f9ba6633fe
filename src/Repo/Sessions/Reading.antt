-- ===== src/Repo/Sessions/Reading.antt =====
-- What is read back of session metadata that was stored
-- (internal/repository/postgres/session_postgres.go).
use mathlib.Core.Path.{subst}
use follower_bmad.Errors.Code.{DomainError}
use follower_bmad.Base.{
  ◌≡◌, refl, Bool-cases, inl, inr, ==_refl, Option, none, some, List, ◌∷◌, ◌==◌, any,
}
use follower_bmad.Errors.Value.{GoError}
use follower_bmad.Errors.Result.{Result, ok, err}
use follower_bmad.Domain.Ids.{Uuid, Time}
use follower_bmad.Domain.Session.{SessionMetadata, validate}
use follower_bmad.Repo.Table.{find, find-update, find_key}
use follower_bmad.Repo.Sessions.{
  metadata_upserted, SessionStore, session_key, get_by_account_id, overwrite, inserted, returned,
  on_conflict, if_valid, insert_session, upsert,
}

-- What get_by_account_id gives back of metadata that was stored.
pub record IsStored (now : Time) (m stored : SessionMetadata) : Type 0 where
  pub same_account : stored.account_id ≡ m.account_id
  pub same_revision : stored.revision ≡ m.revision
  pub same_status : stored.status ≡ m.status
  pub same_object : stored.object_key ≡ m.object_key
  pub same_code : stored.error_code ≡ m.error_code
  pub touched : stored.updated_at ≡ now

-- The two writes of upsert, and the row that is read back.
Reads : Time → SessionMetadata → Result SessionMetadata × SessionStore → Type 0
Reads now m (err e, s') = Unit
Reads now m (ok stored, s') =
    (get_by_account_id none m.account_id s' ≡ ok stored) × IsStored now m stored

get_found :
    (id : Uuid) (s : SessionStore) (m : SessionMetadata)
    → find session_key id s.sessions ≡ some m
    → get_by_account_id none id s ≡ ok m
unfolding get_by_account_id
get_found id s m e = rw (e, get_by_account_id) refl

find_first :
    (m : SessionMetadata) (rows : List SessionMetadata)
    → find session_key m.account_id (m ∷ rows) ≡ some m
unfolding find
find_first m rows = rw (==_refl m.account_id) refl

read_inserted :
    (now : Time) (m : SessionMetadata) (s : SessionStore) → Reads now m (insert_session now m s)
unfolding Reads insert_session inserted
read_inserted now m s = elim (Bool-cases (any (λ id. id == m.account_id) s.account_ids)) [
  | inl known ↦ rw known (
    get_found m.account_id _ _ (find_first (inserted now m) s.sessions),
    record {
      same_account = refl;
      same_revision = refl;
      same_status = refl;
      same_object = refl;
      same_code = refl;
      touched = refl;
    },
  )
  | inr unknown ↦ rw unknown tt
]

read_overwritten :
    (now : Time) (m : SessionMetadata) (s : SessionStore) (o : Option SessionMetadata)
    → find session_key m.account_id s.sessions ≡ o
    → Reads now m (returned metadata_upserted m.account_id (overwrite now m) s o)
unfolding Reads overwrite
read_overwritten now m s none e = tt
read_overwritten now m s (some old) e = (
  get_found m.account_id _ _ (
      rw
        (
          find-update session_key m.account_id m.account_id (overwrite now m) s.sessions
              (λ x. refl),
          e,
          ==_refl m.account_id,
        )
        refl),
  record {
    same_account = find_key session_key m.account_id s.sessions e;
    same_revision = refl;
    same_status = refl;
    same_object = refl;
    same_code = refl;
    touched = refl;
  },
)

read_written :
    (now : Time) (m : SessionMetadata) (s : SessionStore) (o : Option SessionMetadata)
    → find session_key m.account_id s.sessions ≡ o
    → Reads now m (on_conflict now m s o)
read_written now m s none e = read_inserted now m s
read_written now m s (some old) e = read_overwritten now m s _ refl

read_if_valid :
    (now : Time) (m : SessionMetadata) (s : SessionStore) (o : Option DomainError)
    (fault : Option GoError) (w : Result SessionMetadata × SessionStore)
    → Reads now m w
    → Reads now m (if_valid o fault s w)
unfolding Reads
read_if_valid now m s (some e) fault w h = tt
read_if_valid now m s none (some e) w h = tt
read_if_valid now m s none none w h = h

read_upserted :
    (fault : Option GoError) (now : Time) (m : SessionMetadata) (s : SessionStore)
    → Reads now m (upsert fault now m s)
unfolding upsert
read_upserted fault now m s =
    read_if_valid now m s (validate m) fault _ (read_written now m s _ refl)

-- What Upsert returns is what GetByAccountID then finds for the account, and it has the revision,
-- the status, the object key and the error code that were given.
pub upsert-get_by_account_id :
    (fault : Option GoError) (now : Time) (m stored : SessionMetadata) (s s' : SessionStore)
    → upsert fault now m s ≡ (ok stored, s')
    → (get_by_account_id none m.account_id s' ≡ ok stored) × IsStored now m stored
unfolding Reads
upsert-get_by_account_id fault now m stored s s' h =
    subst (Reads now m) h (read_upserted fault now m s)
