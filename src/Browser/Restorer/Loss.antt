-- ===== src/Browser/Restorer/Loss.antt =====
-- What a save leaves of the session before it when the database fails
-- (internal/browser/session_restorer.go).
use mathlib.Core.Path.{subst}
use follower_bmad.Base.{ℤ, ◌≡◌, refl, sym, ap, ◌∙◌, Bool, Option, none, some}
use follower_bmad.Text.{Text}
use follower_bmad.Errors.Code.{DomainError}
use follower_bmad.Errors.Value.{GoError, domain_error}
use follower_bmad.Errors.Result.{Result, ok}
use follower_bmad.Domain.Ids.{Uuid, Bytes}
use follower_bmad.Domain.Session.{SessionMetadata}
use follower_bmad.Repo.Sessions.{SessionStore, get_by_account_id, if_valid, upsert}
use follower_bmad.Storage.Keys.{Names}
use follower_bmad.Storage.Objects.{ObjectClient, IsLawful, IsMissing, Stored}
use follower_bmad.Storage.Sessions.{save}
use follower_bmad.Browser.Restorer.{
  Moment, Restorable, int64_suc, next_revision, saved_metadata, after_cleanup, after_upsert,
  after_save, save_revision, save_session,
}
use follower_bmad.Browser.Restorer.RoundTrip.{IsWhole}

module _ {O : Type 0} (client : ObjectClient O) (law : IsLawful client) (names : Names)
    (json_valid : Bytes → Bool) (deletes : (k : Text) (o : O) → (client.delete k o).0 ≡ none) where
  -- The metadata is as it was, and the object that it names is missing.
  abbrev pub Loses : Uuid → Text → SessionMetadata → Restorable O → Type 0
  Loses id key md r =
      (get_by_account_id none id r.sessions ≡ ok md) × IsMissing (client.get key r.bucket.objects)

  cleaned-Loses :
      (m : Moment) (id : Uuid) (key : Text) (md : SessionMetadata) (e : GoError) (s : SessionStore)
      (bucket : Stored O) (p : Option GoError × O)
      → get_by_account_id none id s ≡ ok md
      → client.delete key bucket.objects ≡ p
      → Loses id key md (after_cleanup client names json_valid m e s bucket p).1
  cleaned-Loses m id key md e s bucket (some f, o) g h = cc (deletes key bucket.objects)
  cleaned-Loses m id key md e s bucket (none, o) g h = (
    g,
    subst (λ (q : Option GoError × O). IsMissing (client.get key q.1)) h
        (law.get-delete key bucket.objects (deletes key bucket.objects)),
  )

  refused-Loses :
      (m : Moment) (f : GoError) (id : Uuid) (key : Text) (md : SessionMetadata) (s : SessionStore)
      (bucket : Stored O) (o : Option DomainError) (w : Result SessionMetadata × SessionStore)
      → get_by_account_id none id s ≡ ok md
      → Loses id key md
          (after_upsert client names json_valid m key bucket (if_valid o (some f) s w)).1
  refused-Loses m f id key md s bucket (some e) w g =
      cleaned-Loses m id key md (domain_error e) s bucket _ g refl
  refused-Loses m f id key md s bucket none w g = cleaned-Loses m id key md f s bucket _ g refl

  failed-Loses :
      (m : Moment) (f : GoError) (id : Uuid) (key : Text) (md : SessionMetadata) (revision : ℤ)
      (s : SessionStore) (bucket : Stored O)
      → m.on_upsert ≡ some f
      → get_by_account_id none id s ≡ ok md
      → Loses id key md (after_save client names json_valid m id revision s (ok key, bucket)).1
  unfolding upsert
  failed-Loses m f id key md revision s bucket u g =
      subst
        (λ (o : Option GoError).
          Loses id key md
            (after_upsert client names json_valid m key bucket
              (upsert o m.now (saved_metadata client names json_valid m id revision key) s)).1)
        (sym u) (refused-Loses m f id key md s bucket _ _ g)

  -- An account has a session that can be restored, and its next session is saved: the new payload
  -- has overwritten the object of the old one when the database refuses the new metadata. The
  -- object is then deleted. So the old metadata still names it, and there is no payload any more.
  pub save_session-Loses :
      (m : Moment) (f : GoError) (id : Uuid) (login key : Text) (old payload : Bytes)
      (md : SessionMetadata) (r : Restorable O) (bucket : Stored O)
      → m.on_get ≡ none
      → m.on_upsert ≡ some f
      → IsWhole client law names json_valid id key old md r
      → save client names json_valid id login (int64_suc md.revision) payload m.now r.bucket
        ≡ (ok key, bucket)
      → Loses id key md (save_session client names json_valid m id login payload r).1
  unfolding save_session
  save_session-Loses m f id login key old payload md r bucket g u w h =
      subst
        (λ (o : Result SessionMetadata).
          Loses id key md
            (save_revision client names json_valid m id login payload r
              (next_revision client names json_valid m o)).1)
        (sym (ap (λ (o : Option GoError). get_by_account_id o id r.sessions) g ∙ w.in_table))
        (subst
          (λ (p : Result Text × Stored O).
            Loses id key md
              (after_save client names json_valid m id (int64_suc md.revision) r.sessions p).1)
          (sym h)
          (failed-Loses m f id key md (int64_suc md.revision) r.sessions bucket u w.in_table))
