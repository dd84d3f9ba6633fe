-- ===== src/Errors/Result.antt =====
-- What a Go function with an error result returns: a value, or an error that is not nil.
use follower_bmad.Base.{◌≡◌, ap, Option, none, some, Bool, true, false}
use follower_bmad.Errors.Code.{DomainError}
use follower_bmad.Errors.Value.{GoError, domain_error}

pub data Result {ℓ} (A : Type ℓ) : Type ℓ where
  ok : A → Result A
  err : GoError → Result A

-- if e := check(); e != nil { return e }
abbrev pub unless_error {ℓ} : {A : Type ℓ} → Option DomainError → Result A → Result A
unless_error none r = r
unless_error (some e) r = err (domain_error e)

abbrev pub is_ok {ℓ} : {A : Type ℓ} → Result A → Bool
is_ok (ok _) = true
is_ok (err _) = false

abbrev value_or {ℓ} : {A : Type ℓ} → A → Result A → A
value_or a (ok b) = b
value_or a (err _) = a

pub ok-injective {ℓ} : {A : Type ℓ} (a b : A) → ok a ≡ ok b → a ≡ b
ok-injective a b e = ap (value_or a) e
