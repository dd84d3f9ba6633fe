-- ===== src/Browser/Follow/Outcome.antt =====
-- What a run of the flow on playwright promises the worker (follow_flow.go, warmup_flow.go).
use follower_bmad.Base.{
  not, String, ℤ, ◌≡◌, refl, ◌⊎◌, inl, inr, Bool, true, false, Option, none, some, arith, if_ind,
  Bool-cases,
}
use follower_bmad.Text.{Text, codes, trim_space, is_empty}
use follower_bmad.Errors.Code.{DomainError, follow_target_profile_required}
use follower_bmad.Errors.Value.{
  GoError, domain_error, as_domain_error, is_context_error, error_text,
}
use follower_bmad.Errors.Result.{Result, ok, err, unless_error}
use follower_bmad.Domain.Ids.{Bytes, reject, validate_target_profile}
use follower_bmad.Domain.TargetProfile.{normalize_target, matches}
use follower_bmad.Domain.Follow.{
  FollowOutcome, is_valid_outcome, FollowFlowInput, FollowFlowDiagnostics, validate_flow_input,
}
use follower_bmad.Browser.Rules.{
  is_follow_code, error_of_text, kept_follow_error, normalize_follow_error,
}
use follower_bmad.Browser.Follow.{
  FollowAdapter, playwright_warmup, normalize_warmup_error, playwright_follow, parse_error,
  error_of, or_else_error, normalized_error, after_warmup, run_follow_flow, run_playwright_flow,
  valid_action, after_follow,
}

-- A domain error with one of the codes of a follow.
pub record IsFollowError (e : GoError) : Type 0 where
  pub cause : DomainError
  pub is_cause : e ≡ domain_error cause
  pub code : is_follow_code cause.code ≡ true

-- What package context promises of ctx.Err().
abbrev pub IsContextErr : Option GoError → Type 0
IsContextErr none = Unit
IsContextErr (some e) = is_context_error e ≡ true

kept_lem :
    (o : Option DomainError) (d : DomainError)
    → is_follow_code d.code ≡ true
    → IsFollowError (kept_follow_error o d)
kept_lem none d h = record { cause = d; is_cause = refl; code = h }
kept_lem (some c) d h =
    if_ind IsFollowError (is_follow_code c.code) _ _
      (λ k. record { cause = c; is_cause = refl; code = k })
      (λ _. record { cause = d; is_cause = refl; code = h })

error_of_text_lem : (lowered : Text) → is_follow_code (error_of_text lowered).code ≡ true
unfolding error_of_text
error_of_text_lem lowered = ground arith

-- The reading of any error gives an error that the worker's policy knows.
pub normalize_follow_error-IsFollowError :
    (lower : Text → Text) (e : GoError) → IsFollowError (normalize_follow_error lower e)
unfolding normalize_follow_error
normalize_follow_error-IsFollowError lower e =
    if_ind IsFollowError (is_context_error e) _ _
      (λ _. record { cause = _; is_cause = refl; code = refl })
      (λ _. kept_lem (as_domain_error e) _ (error_of_text_lem (lower (error_text e))))

abbrev Targets : Result Text → Type 0
Targets (ok _) = Unit
Targets (err e) = IsFollowError e

rejected_lem :
    (no_target no_match : Bool) (m n : String) (url : Text)
    → Targets (
        unless_error
          (reject no_target follow_target_profile_required m
            (reject no_match follow_target_profile_required n none))
          (ok url))
rejected_lem true no_match m n url = record { cause = _; is_cause = refl; code = refl }
rejected_lem false true m n url = record { cause = _; is_cause = refl; code = refl }
rejected_lem false false m n url = tt

normalize_target-Targets : (t : Text) → Targets (normalize_target t)
unfolding normalize_target
normalize_target-Targets t =
    rejected_lem (is_empty (trim_space t)) (not (matches (trim_space t))) _ _ (trim_space t)

validated_target :
    (i : FollowFlowInput)
    → validate_flow_input i ≡ none
    → validate_target_profile i.target_profile ≡ none
unfolding validate_flow_input
validated_target i h = ground arith

module _ (lower : Text → Text) (decodes : Bytes → Bool) (adapter : FollowAdapter) where
  -- A follow that was run: on a profile's address and a session that playwright can read, after a
  -- warmup, with the adapter's outcome.
  pub record IsFollowed (i : FollowFlowInput) (o : FollowOutcome) (d : FollowFlowDiagnostics)
      : Type 0 where
    pub valid : is_valid_outcome o ≡ true
    pub acted : adapter.run_follow_action i ≡ ok o
    pub warm : adapter.warmup i ≡ none
    pub told : d.warmup_completed ≡ true
    pub address : Text
    pub is_address : normalize_target i.target_profile ≡ ok address
    pub readable : decodes i.session_payload ≡ true

  abbrev pub Follows : FollowFlowInput → Result FollowOutcome × FollowFlowDiagnostics → Type 0
  Follows i (ok o, d) = IsFollowed i o d
  Follows i (err e, d) = (is_context_error e ≡ true) ⊎ IsFollowError e

  after_follow_lem :
      (i : FollowFlowInput) (d : FollowFlowDiagnostics) (seen : Result FollowOutcome)
      → adapter.run_follow_action i ≡ seen
      → ((o : FollowOutcome) → seen ≡ ok o → is_valid_outcome o ≡ true → IsFollowed i o d)
      → Follows i (after_follow (valid_action lower seen), d)
  after_follow_lem i d (err e) h k = inr (normalize_follow_error-IsFollowError lower e)
  after_follow_lem i d (ok o) h k = elim (Bool-cases (is_valid_outcome o)) [
    | inl good ↦ rw (good, good) (k o refl good)
    | inr bad ↦ rw bad (inr (record { cause = _; is_cause = refl; code = refl }))
  ]

  -- What is known once the warmup has an error or none.
  abbrev Warmed : FollowFlowInput → Option GoError → Type 0
  Warmed i (some e) = (is_context_error e ≡ true) ⊎ IsFollowError e
  Warmed i none =
      (adapter.warmup i ≡ none)
      × ((url : Text) × (normalize_target i.target_profile ≡ ok url))
      × (decodes i.session_payload ≡ true)

  kept_error :
      (i : FollowFlowInput) (e : GoError)
      → IsFollowError e
      → Warmed i (normalize_warmup_error (some e))
  unfolding normalize_warmup_error
  kept_error i e h =
      if_ind (λ e'. Warmed i (some e')) (is_context_error e) _ _
        (λ _. inr (record { cause = _; is_cause = refl; code = refl })) (λ _. inr h)

  stages_lem :
      (i : FollowFlowInput) (t : Result Text) (decoded : Bool) (w : Option GoError)
      → normalize_target i.target_profile ≡ t
      → decodes i.session_payload ≡ decoded
      → adapter.warmup i ≡ w
      → Targets t
      → Warmed i (
          normalize_warmup_error (
            or_else_error
              (error_of t)
              (or_else_error (parse_error decoded) (normalized_error lower w))))
  unfolding normalize_warmup_error
  stages_lem i (err e) decoded w et ed ew h = kept_error i e h
  stages_lem i (ok url) false w et ed ew h =
      kept_error i _ (record { cause = _; is_cause = refl; code = refl })
  stages_lem i (ok url) true (some e) et ed ew h =
      kept_error i _ (normalize_follow_error-IsFollowError lower e)
  stages_lem i (ok url) true none et ed ew h = (ew, (url, et), ed)

  warmup_lem :
      (i : FollowFlowInput) (cancelled : Option GoError)
      → IsContextErr cancelled
      → validate_target_profile i.target_profile ≡ none
      → Warmed i (normalize_warmup_error (playwright_warmup lower decodes cancelled adapter i))
  unfolding playwright_warmup normalize_warmup_error
  warmup_lem i (some e) h v =
      rw (h, normalize_warmup_error) (inr (record { cause = _; is_cause = refl; code = refl }))
  warmup_lem i none h v =
      rw (v) (stages_lem i _ _ _ refl refl refl (normalize_target-Targets i.target_profile))

  -- What the whole flow does once the input is known to be valid and the warmup is over.
  flow_lem :
      (i : FollowFlowInput) (cancelled : Option GoError) (wms ems : ℤ) (w : Option GoError)
      → IsContextErr cancelled
      → validate_target_profile i.target_profile ≡ none
      → Warmed i w
      → Follows i (
          after_warmup
            (codes "playwright")
            (record {
              warm_up = λ _. none;
              follow = playwright_follow lower cancelled (some adapter);
              warmup_ms = wms;
              execution_ms = ems;
            })
            i
            w)
  unfolding playwright_follow
  flow_lem i cancelled wms ems (some e) h v w = w
  flow_lem i (some e) wms ems none h v w = inl h
  flow_lem i none wms ems none h v w = rw v (
      after_follow_lem i _ (adapter.run_follow_action i) refl (λ o e good. record {
        valid = good;
        acted = e;
        warm = w.0;
        told = refl;
        address = w.1.0;
        is_address = w.1.1;
        readable = w.2;
      }))

  -- A run of the flow on playwright for a valid input gives an outcome only where a warmup has
  -- been made, the target is a profile's address, the session is one that playwright can read,
  -- and the outcome is the adapter's and a known one. Its error is the context's own or a domain
  -- error with one of the six codes of a follow.
  pub run_playwright_flow-Follows :
      (at_warmup at_follow : Option GoError) (warmup_ms execution_ms : ℤ) (i : FollowFlowInput)
      → IsContextErr at_warmup
      → IsContextErr at_follow
      → validate_flow_input i ≡ none
      → Follows i
          (run_playwright_flow lower decodes at_warmup at_follow adapter warmup_ms execution_ms i)
  unfolding run_playwright_flow run_follow_flow
  run_playwright_flow-Follows at_warmup at_follow wms ems i hw hf v = rw v (
      flow_lem i at_follow wms ems _ hf (validated_target i v)
        (warmup_lem i at_warmup hw (validated_target i v)))
