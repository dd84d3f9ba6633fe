-- ===== src/Browser/Restorer/RoundTrip.antt =====
-- What a session that was saved gives when it is restored (internal/browser/session_restorer.go,
-- internal/storage/session_store.go, internal/repository/postgres/session_postgres.go).
use mathlib.Core.Path.{subst}
use follower_bmad.Base.{ℤ, ◌≡◌, refl, sym, ap, ◌∙◌, Bool, true, Option, none, some, arith}
use follower_bmad.Text.{Text}
use follower_bmad.Errors.Value.{GoError}
use follower_bmad.Errors.Result.{Result, ok, err, ok-injective}
use follower_bmad.Domain.Ids.{Uuid, Time, Bytes}
use follower_bmad.Domain.Session.{SessionMetadata}
use follower_bmad.Repo.Sessions.{
  SessionStore, get_by_account_id, upsert, set_restored, mark_restored,
}
use follower_bmad.Repo.Sessions.Reading.{upsert-get_by_account_id}
use follower_bmad.Storage.Keys.{Names, is_session_object_owned}
use follower_bmad.Storage.Objects.{ObjectClient, IsLawful, Stored}
use follower_bmad.Storage.Sessions.{session_key_of, load, Saves, save-Saves, load_lem}
use follower_bmad.Browser.Restorer.{
  Moment, Restorable, after_load, after_metadata, restore, next_revision, saved_metadata,
  after_cleanup, after_upsert, after_save, save_revision, save_session, after_restored,
}

module _ {O : Type 0} (client : ObjectClient O) (law : IsLawful client) (names : Names)
    (json_valid : Bytes → Bool) where
  -- A session that is stored whole: its metadata in the database, its payload under their key.
  pub record IsWhole (id : Uuid) (key : Text) (payload : Bytes) (md : SessionMetadata)
      (r : Restorable O) : Type 0 where
    pub in_table : get_by_account_id none id r.sessions ≡ ok md
    pub has_key : md.object_key ≡ key
    pub in_bucket : client.get key r.bucket.objects ≡ ok payload
    pub is_json : json_valid payload ≡ true

  abbrev Stores : Uuid → Text → Bytes → ℤ → Result SessionMetadata × Restorable O → Type 0
  Stores id key payload revision (ok md, r) = IsWhole id key payload md r × (md.revision ≡ revision)
  Stores id key payload revision (err e, r) = Unit

  module _ (m : Moment) (id : Uuid) (login : Text) (payload : Bytes) where
    cleaned-Stores :
        (e : GoError) (key : Text) (revision : ℤ) (s : SessionStore) (bucket : Stored O)
        (p : Option GoError × O)
        → Stores id key payload revision (after_cleanup client names json_valid m e s bucket p)
    cleaned-Stores e key revision s bucket (none, o) = tt
    cleaned-Stores e key revision s bucket (some f, o) = tt

    after_upsert-Stores :
        (key : Text) (revision : ℤ) (s : SessionStore) (bucket : Stored O)
        (p : Result SessionMetadata × SessionStore)
        → upsert m.on_upsert m.now (saved_metadata client names json_valid m id revision key) s ≡ p
        → client.get key bucket.objects ≡ ok payload
        → json_valid payload ≡ true
        → Stores id key payload revision (after_upsert client names json_valid m key bucket p)
    after_upsert-Stores key revision s bucket (err e, s') h g j =
        cleaned-Stores e key revision s' bucket (client.delete key bucket.objects)
    after_upsert-Stores key revision s bucket (ok md, s') h g j =
        let stored = upsert-get_by_account_id m.on_upsert m.now _ md s s' h in
        (
          record {
            in_table = stored.0;
            has_key = stored.1.same_object;
            in_bucket = g;
            is_json = j;
          },
          stored.1.same_revision,
        )

    after_save-Stores :
        (key : Text) (revision : ℤ) (s : SessionStore) (p : Result Text × Stored O)
        → Saves client law names json_valid key payload p
        → Stores id key payload revision (after_save client names json_valid m id revision s p)
    after_save-Stores key revision s (err e, bucket) h = tt
    after_save-Stores key revision s (ok k, bucket) h =
        subst
          (λ (x : Text). Stores id x payload revision (
            after_upsert client names json_valid m k bucket (
              upsert m.on_upsert m.now (saved_metadata client names json_valid m id revision k) s)))
          h.0
          (after_upsert-Stores k revision s bucket _ refl
            (subst (λ (x : Text). client.get x bucket.objects ≡ ok payload) (sym h.0) h.1) h.2)

    save_revision-Stores :
        (revision : ℤ) (r : Restorable O)
        → Stores id
            (session_key_of names login id)
            payload
            revision
            (save_revision client names json_valid m id login payload r (ok revision))
    save_revision-Stores revision r =
        after_save-Stores (session_key_of names login id) revision r.sessions _
          (save-Saves client law names json_valid id login revision payload m.now r.bucket)

    saved-Stores :
        (r : Restorable O) (o : Result ℤ) (md : SessionMetadata) (r' : Restorable O)
        → save_revision client names json_valid m id login payload r o ≡ (ok md, r')
        → IsWhole id (session_key_of names login id) payload md r' × (o ≡ ok md.revision)
    saved-Stores r (err e) md r' h = cc
    saved-Stores r (ok revision) md r' h =
        let stored =
          subst (Stores id (session_key_of names login id) payload revision) h
            (save_revision-Stores revision r) in
        (stored.0, ap (λ (x : ℤ). ok x) (sym stored.1))

  marked :
      (now : Time) (id : Uuid) (s : SessionStore) (md : SessionMetadata)
      → get_by_account_id none id s ≡ ok md
      → (mark_restored none now id s).0 ≡ ok (set_restored now md)
  unfolding mark_restored get_by_account_id
  marked now id s md h = ground arith

  given_payload :
      (m : Moment) (payload : Bytes) (bucket : Stored O) (md : SessionMetadata)
      (p : Result SessionMetadata × SessionStore)
      → p.0 ≡ ok md
      → (after_restored client names json_valid m payload bucket p).0 ≡ ok (md, payload)
  given_payload m payload bucket md (ok x, s) h =
      ap (λ (y : SessionMetadata). ok (y, payload)) (ok-injective x md h)
  given_payload m payload bucket md (err e, s) h = cc

  -- A whole session that is restored gives its payload, and its metadata marked as restored.
  restored-IsWhole :
      (m : Moment) (id : Uuid) (key : Text) (payload : Bytes) (md : SessionMetadata)
      (r : Restorable O)
      → m.on_get ≡ none
      → m.on_restored ≡ none
      → is_session_object_owned names id key ≡ true
      → IsWhole id key payload md r
      → (restore client names json_valid m id r).0 ≡ ok (set_restored m.now md, payload)
  unfolding restore
  restored-IsWhole m id key payload md r g n owned w =
      let found : get_by_account_id m.on_get id r.sessions ≡ ok md =
        ap (λ (o : Option GoError). get_by_account_id o id r.sessions) g ∙ w.in_table in
      let loaded : load client names json_valid id md.object_key r.bucket.objects ≡ ok payload =
        ap (λ (k : Text). load client names json_valid id k r.bucket.objects) w.has_key
        ∙ load_lem client law names json_valid id key r.bucket.objects payload owned w.in_bucket
            w.is_json in
      ap (λ q. (after_metadata client names json_valid m id r q).0) found
      ∙ ap (λ q. (after_load client names json_valid m id r q).0) loaded
      ∙ given_payload m payload r.bucket (set_restored m.now md) _ (
          ap (λ (o : Option GoError). (mark_restored o m.now id r.sessions).0) n
          ∙ marked m.now id r.sessions md w.in_table)

  -- A session that was saved is restored: where the key of its login passes the check of owners and
  -- the database answers, Restore gives the saved payload, and the saved metadata, marked as valid
  -- and restored now. The revision that was saved is 1 for the first session of an account and else
  -- the one after that of the metadata before.
  pub restore-save_session :
      (m m' : Moment) (id : Uuid) (login : Text) (payload : Bytes) (md : SessionMetadata)
      (r r' : Restorable O)
      → save_session client names json_valid m id login payload r ≡ (ok md, r')
      → is_session_object_owned names id (session_key_of names login id) ≡ true
      → m'.on_get ≡ none
      → m'.on_restored ≡ none
      → ((restore client names json_valid m' id r').0 ≡ ok (set_restored m'.now md, payload))
        × (next_revision client names json_valid m (get_by_account_id m.on_get id r.sessions)
            ≡ ok md.revision)
  unfolding save_session
  restore-save_session m m' id login payload md r r' h owned g n =
      let stored = saved-Stores m id login payload r _ md r' h in
      (
        restored-IsWhole m' id (session_key_of names login id) payload md r' g n owned stored.0,
        stored.1,
      )
