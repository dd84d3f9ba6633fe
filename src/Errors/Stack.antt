-- ===== src/Errors/Stack.antt =====
-- Package stackerr (internal/stackerr/errors.go). What runtime.Callers sees is an argument.
pub mod Laws
use follower_bmad.Base.{
  ℕ, ◌+◌, suc, zero, Bool, true, false, ◌||◌, Option, none, some, List, [], ◌∷◌, length, leb,
  if◌then◌else◌,
}
use follower_bmad.Text.{Text, codes, has_prefix, contains, trim_space, is_empty}
use follower_bmad.Errors.Value.{GoError, Frame, domain_error, plain, root, caused, joined, or_else}

abbrev pub default_max_stack_depth : ℕ
default_max_stack_depth = 32

-- skipFrame
unfoldable pub skip_frame : Frame → Bool
unfolding has_prefix contains
skip_frame frame =
    has_prefix frame.function (codes "runtime.")
    || contains frame.function (codes "/internal/stackerr.")
    || contains frame.function (codes "/internal/stackerr/")

-- captureStack: the loop stops once `limit` frames are taken.
unfoldable pub capture_stack : ℕ → List Frame → List Frame
capture_stack zero callers = []
capture_stack (suc limit) [] = []
capture_stack (suc limit) (f ∷ callers) = elim (skip_frame f) [
  | true ↦ capture_stack (suc limit) callers
  | false ↦ f ∷ capture_stack limit callers
]

-- stackOf: the stack of the first *stackerr.Error that errors.As finds; `none` if there is none.
unfoldable pub first_stack : GoError → Option (List Frame)
first_stack (domain_error d) = none
first_stack (plain t) = none
first_stack (root t s) = some s
first_stack (caused t e s) = some s
first_stack (joined a b) = or_else (first_stack a) (first_stack b)

abbrev pub or_empty : Option (List Frame) → List Frame
or_empty none = []
or_empty (some s) = s

unfoldable pub stack_of : GoError → List Frame
unfolding first_stack
stack_of e = or_empty (first_stack e)

abbrev pub or_captured : List Frame → List Frame → List Frame
or_captured [] callers = capture_stack default_max_stack_depth callers
or_captured (f ∷ fs) callers = f ∷ fs

-- New
unfoldable pub new : Text → List Frame → GoError
unfolding trim_space
new msg callers = root (trim_space msg) (capture_stack default_max_stack_depth callers)

-- Wrap
unfoldable pub wrap : Option GoError → Text → List Frame → GoError
unfolding new stack_of
wrap none msg callers = new msg callers
wrap (some e) msg callers = caused (trim_space msg) e (or_captured (stack_of e) callers)

abbrev pub attach_captured : List Frame → GoError → List Frame → GoError
attach_captured [] e captured = caused [] e captured
attach_captured (f ∷ fs) e captured = e

-- WithStack
unfoldable pub with_stack : Option GoError → List Frame → Option GoError
unfolding stack_of
with_stack none callers = none
with_stack (some e) callers =
    some (attach_captured (stack_of e) e (capture_stack default_max_stack_depth callers))

-- (*Error).StackTrace copies the frames; a nil receiver and an empty stack give nil.
unfoldable pub stack_trace : Option GoError → List Frame
stack_trace (some (root t s)) = s
stack_trace (some (caused t e s)) = s
stack_trace _ = []

-- messageForLog
unfoldable pub message_for_log : Text → Text
message_for_log m = let msg = trim_space m in if is_empty msg then codes "error" else msg
