-- ===== src/Domain/Ids.antt =====
-- What the records of package domain share. A uuid.UUID is a number, with 0 for uuid.Nil; an
-- instant is a number; []byte is a list of numbers; nil as an error is `none`.
use follower_bmad.Base.{ℕ, Bool, List, Option, none, some, String, ◌==◌, if◌then◌else◌}
use follower_bmad.Text.{Text, text, is_blank}
use follower_bmad.Errors.Code.{
  ErrorCode, DomainError, new_domain_error, unlisted, follow_target_profile_required,
}

abbrev pub Uuid : Type 0
Uuid = ℕ

abbrev pub Time : Type 0
Time = ℕ

abbrev pub Bytes : Type 0
Bytes = List ℕ

-- id == uuid.Nil
abbrev pub is_nil : Uuid → Bool
is_nil id = id == 0

-- The error code "".
abbrev pub no_code : ErrorCode
no_code = unlisted List.[]

-- if test { return NewDomainError(code, message) }
abbrev pub reject : Bool → ErrorCode → String → Option DomainError → Option DomainError
reject test code message rest = if test then some (new_domain_error code (text message)) else rest

-- TargetProfileDescriptor.Validate (follow_flow.go)
unfoldable pub validate_target_profile : Text → Option DomainError
validate_target_profile descriptor =
    reject (is_blank descriptor) follow_target_profile_required
      "target profile descriptor must not be empty" none
