-- ===== src/Domain/Session.antt =====
-- Session metadata (internal/domain/session.go).
use follower_bmad.Base.{ℤ, is_not_positive, Bool, true, false, not, ◌&&◌, Option, none}
use follower_bmad.Text.{Text, is_empty}
use follower_bmad.Errors.Code.{
  ErrorCode, DomainError, code_text, invalid_account_identifier, invalid_session_revision,
  invalid_session_status, invalid_session_object_key,
}
use follower_bmad.Domain.Ids.{Uuid, Time, is_nil, reject}

-- SessionStatus; `unlisted` is a text that is none of the constants.
pub data SessionStatus : Type 0 where
  valid invalid unavailable : SessionStatus
  unlisted : Text → SessionStatus

-- SessionStatus.IsValid
unfoldable pub is_valid : SessionStatus → Bool
is_valid (unlisted t) = false
is_valid _ = true

abbrev pub is_valid_session : SessionStatus → Bool
is_valid_session valid = true
is_valid_session _ = false

pub record SessionMetadata : Type 0 where
  pub account_id : Uuid
  pub revision : ℤ
  pub status : SessionStatus
  pub object_key : Text
  pub error_code : ErrorCode
  pub last_restored_at : Option Time
  pub created_at : Time
  pub updated_at : Time

-- SessionMetadata.Validate
unfoldable pub validate : SessionMetadata → Option DomainError
unfolding is_valid code_text
validate m =
    reject (is_nil m.account_id) invalid_account_identifier
      "session metadata requires non-empty account id"
      (reject (is_not_positive m.revision) invalid_session_revision
        "session revision must be positive, got %d"
        (reject (not (is_valid m.status)) invalid_session_status "invalid session status: %s" (
          reject (is_empty m.object_key) invalid_session_object_key
            "session object key must not be empty"
            (reject (is_valid_session m.status && not (is_empty (code_text m.error_code)))
              invalid_session_status "valid session metadata must not contain error code" none))))
