-- ===== src/Storage/Sessions.antt =====
-- SessionStore (internal/storage/session_store.go). The file holds an unresolved merge conflict;
-- its two sides differ by stackerr.WithStack only, and both are the model.
use follower_bmad.Base.{
  ℤ, is_not_positive, ◌≡◌, refl, sym, ap, ◌∙◌, Bool, true, not, Option, none, some, if◌then◌else◌,
  if_ind, arith,
}
use follower_bmad.Text.{Text, text, codes}
use follower_bmad.Errors.Code.{
  invalid_account_identifier, invalid_session_revision, session_payload_invalid,
  session_payload_missing, session_payload_corrupted, session_ownership_mismatch,
}
use follower_bmad.Errors.Value.{GoError, is_domain_error_code}
use follower_bmad.Errors.Result.{Result, ok, err}
use follower_bmad.Domain.Ids.{Uuid, Time, Bytes, is_nil}
use follower_bmad.Storage.Keys.{
  Names, resolve_object_owner_key, session_payload_object_key, session_history_object_key,
  is_session_object_owned,
}
use follower_bmad.Storage.Sequence.{Sequencer, next_unique_key_timestamp}
use follower_bmad.Storage.Objects.{ObjectClient, IsLawful, Stored, failed}

-- The key of the session of an account that has this login.
abbrev pub session_key_of : Names → Text → Uuid → Text
session_key_of names login id =
    session_payload_object_key names (resolve_object_owner_key names login id)

module _ {O : Type 0} (client : ObjectClient O) (names : Names) (json_valid : Bytes → Bool) where
  abbrev pub after_put : Text → Stored O → Option GoError × O → Result Text × Stored O
  after_put key st (some e, o) = (err e, record st { objects = o })
  after_put key st (none, o) = (ok key, record st { objects = o })

  abbrev pub put_latest : Text → Bytes → Stored O → Result Text × Stored O
  put_latest key payload st = after_put key st (client.put key payload st.objects)

  abbrev pub after_history : Text → Bytes → Sequencer → Option GoError × O → Result Text × Stored O
  after_history key payload last (some e, o) = (err e, record { objects = o; last = last })
  after_history key payload last (none, o) =
      put_latest key payload (record { objects = o; last = last })

  -- The session so far is copied to the history, if there is one.
  abbrev pub after_existing :
      Text → Text → Bytes → Time → Stored O → Result Bytes → Result Text × Stored O
  after_existing owner key payload now st (ok existing) =
      let issued = next_unique_key_timestamp names owner (codes "history") now st.last in
      after_history key payload issued.1
        (client.put (session_history_object_key names owner issued.0) existing st.objects)
  after_existing owner key payload now st (err e) =
      if not (is_domain_error_code (some e) session_payload_missing)
      then (err e, st)
      else put_latest key payload st

  -- SessionStore.Save
  unfoldable pub save : Uuid → Text → ℤ → Bytes → Time → Stored O → Result Text × Stored O
  save id login revision payload now st =
      let owner = resolve_object_owner_key names login id in
      let key = session_key_of names login id in
      if is_nil id
      then (
        failed invalid_account_identifier
            (text "session payload save requires non-empty account id"),
        st,
      )
      else if is_not_positive revision
      then (failed invalid_session_revision (text "session revision must be positive, got %d"), st)
      else if not (json_valid payload)
      then (failed session_payload_invalid (text "session payload must be valid JSON"), st)
      else after_existing owner key payload now st (client.get key st.objects)

  abbrev pub checked_payload : Result Bytes → Result Bytes
  checked_payload (err e) = err e
  checked_payload (ok payload) =
      if not (json_valid payload)
      then failed session_payload_corrupted (text "session object %q contains invalid JSON")
      else ok payload

  -- SessionStore.Load
  unfoldable pub load : Uuid → Text → O → Result Bytes
  load id key o =
      if not (is_session_object_owned names id key)
      then failed session_ownership_mismatch
          (text "session object %q does not belong to account %s")
      else checked_payload (client.get key o)

module _ {O : Type 0} (client : ObjectClient O) (law : IsLawful client) (names : Names)
    (json_valid : Bytes → Bool) where
  -- What a save that succeeds leaves: the payload under the key of the login, and JSON.
  abbrev pub Saves : Text → Bytes → Result Text × Stored O → Type 0
  Saves key payload (ok k, st) =
      (k ≡ key) × (client.get key st.objects ≡ ok payload) × (json_valid payload ≡ true)
  Saves key payload (err e, st) = Unit

  put_latest-Saves :
      (key : Text) (payload : Bytes) (st : Stored O)
      → json_valid payload ≡ true
      → Saves key payload (put_latest client names json_valid key payload st)
  put_latest-Saves key payload st j = stored (client.put key payload st.objects) refl
    where
      stored :
          (r : Option GoError × O)
          → client.put key payload st.objects ≡ r
          → Saves key payload (after_put client names json_valid key st r)
      stored (some e, o) h = tt
      stored (none, o) h = (
        refl,
        ap (λ q. client.get key q.1) (sym h) ∙ law.get-put key payload st.objects (ap (λ q. q.0) h),
        j,
      )

  after_history-Saves :
      (key : Text) (payload : Bytes) (last : Sequencer) (r : Option GoError × O)
      → json_valid payload ≡ true
      → Saves key payload (after_history client names json_valid key payload last r)
  after_history-Saves key payload last (some e, o) j = tt
  after_history-Saves key payload last (none, o) j =
      put_latest-Saves key payload (record { objects = o; last = last }) j

  after_existing-Saves :
      (owner key : Text) (payload : Bytes) (now : Time) (st : Stored O) (r : Result Bytes)
      → json_valid payload ≡ true
      → Saves key payload (after_existing client names json_valid owner key payload now st r)
  after_existing-Saves owner key payload now st (ok existing) j =
      after_history-Saves key payload _ _ j
  after_existing-Saves owner key payload now st (err e) j =
      if_ind (Saves key payload) (not (is_domain_error_code (some e) session_payload_missing)) _ _
        (λ _. tt) (λ _. put_latest-Saves key payload st j)

  pub save-Saves :
      (id : Uuid) (login : Text) (revision : ℤ) (payload : Bytes) (now : Time) (st : Stored O)
      → Saves
          (session_key_of names login id)
          payload
          (save client names json_valid id login revision payload now st)
  unfolding save
  save-Saves id login revision payload now st =
      let P = Saves (session_key_of names login id) payload in
      if_ind P (is_nil id) _ _ (λ _. tt)
        (λ _.
          if_ind P (is_not_positive revision) _ _ (λ _. tt)
            (λ _.
              if_ind P (not (json_valid payload)) _ _ (λ _. tt)
                (λ valid. after_existing-Saves _ _ payload now st _ (ground arith))))

  -- An object that is there, is JSON and passes the check of its owner is loaded.
  pub load_lem :
      (id : Uuid) (key : Text) (o : O) (payload : Bytes)
      → is_session_object_owned names id key ≡ true
      → client.get key o ≡ ok payload
      → json_valid payload ≡ true
      → load client names json_valid id key o ≡ ok payload
  unfolding load
  load_lem id key o payload owned e j = ground arith
