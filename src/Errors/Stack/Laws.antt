-- ===== src/Errors/Stack/Laws.antt =====
-- What stackerr does to an error (internal/stackerr/errors.go).
use mathlib.Core.Path.{subst}
use mathlib.Core.Option.{some-injective}
use follower_bmad.Base.{◌≡◌, refl, ◌≢◌, false, some, List, [], ◌∷◌, ◌++◌}
use follower_bmad.Text.{Text, codes, is_blank, trim_space}
use follower_bmad.Text.Trim.{trim_space_idem}
use follower_bmad.Errors.Value.{GoError, Frame, as_domain_error, error_text}
use follower_bmad.Errors.Stack.{
  capture_stack, default_max_stack_depth, stack_of, wrap, with_stack, or_captured, attach_captured,
}

abbrev Attached : GoError → List Frame → List Frame → List Frame → Type 0
Attached e own captured later =
    let e' = attach_captured own e captured in
    (as_domain_error e' ≡ as_domain_error e)
    × (error_text e' ≡ error_text e)
    × (own ≢ [] → e' ≡ e)
    × (captured ≢ [] → with_stack (some e') later ≡ some e')

attach-Attached :
    (e : GoError) (own captured later : List Frame)
    → stack_of e ≡ own
    → Attached e own captured later
unfolding with_stack as_domain_error error_text stack_of trim_space
attach-Attached e [] [] later h = (refl, refl, λ h. absurd (h refl), λ h. absurd (h refl))
attach-Attached e [] (f ∷ fs) later h = (refl, refl, λ h. absurd (h refl), λ _. refl)
attach-Attached e (f ∷ fs) captured later h = (refl, refl, λ _. refl, λ _. rw (h, with_stack))

-- WithStack changes neither the code nor the text of an error, keeps an error that has a stack,
-- and does nothing the second time if a frame was captured the first time.
pub with_stack_lem :
    (e : GoError) (callers later : List Frame) (e' : GoError)
    → with_stack (some e) callers ≡ some e'
    → (as_domain_error e' ≡ as_domain_error e)
      × (error_text e' ≡ error_text e)
      × (stack_of e ≢ [] → e' ≡ e)
      × (capture_stack default_max_stack_depth callers ≢ [] → with_stack (some e') later ≡ some e')
unfolding with_stack
with_stack_lem e callers later e' h =
    subst
      (λ x.
        (as_domain_error x ≡ as_domain_error e)
        × (error_text x ≡ error_text e)
        × (stack_of e ≢ [] → x ≡ e)
        × (capture_stack default_max_stack_depth callers ≢ [] → with_stack (some x) later ≡ some x))
      (some-injective _ _ h)
      (attach-Attached e (stack_of e) (capture_stack default_max_stack_depth callers) later refl)

-- Wrap puts its message in front, keeps the code, and keeps the trace of the wrapped error: the
-- new error's trace is the old one if there was one.
pub wrap_lem :
    (e : GoError) (msg : Text) (callers : List Frame)
    → (as_domain_error (wrap (some e) msg callers) ≡ as_domain_error e)
      × (stack_of (wrap (some e) msg callers) ≡ or_captured (stack_of e) callers)
      × (is_blank msg ≡ false
          → error_text (wrap (some e) msg callers) ≡ trim_space msg ++ (codes ": " ++ error_text e))
unfolding wrap as_domain_error error_text is_blank
wrap_lem e msg callers = (refl, refl, λ h. rw trim_space_idem (rw h))
