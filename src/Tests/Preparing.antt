-- ===== src/Tests/Preparing.antt =====
-- The preparation of a task whose account has no session yet, its bootstrap, and the whole loop.
use follower_bmad.Base.{refl, pos, true, false, none, some, [], ◌∷◌}
use follower_bmad.Text.{text, codes}
use follower_bmad.Errors.Code.{
  new_domain_error, session_metadata_not_found, auth_bootstrap_required,
}
use follower_bmad.Errors.Value.{domain_error}
use follower_bmad.Errors.Result.{ok, err}
use follower_bmad.Domain.Account.{default_runtime_guardrails}
use follower_bmad.Domain.Bootstrap.{LoginResult, login_success}
use follower_bmad.Domain.Follow.{completed}
use follower_bmad.Repo.Accounts.{Store}
use follower_bmad.Worker.Program.{Prepared, perform}
use follower_bmad.Worker.Claimed.{execute_claimed_task}
use follower_bmad.Worker.Guard.Postgres.{Faults, postgres, holder, postgres-IsExclusive}
use follower_bmad.Worker.Prepare.{Services, no_session, prepare_claimed_task}
use follower_bmad.Worker.Prepare.Bootstrap.{resolve_bootstrap}
use follower_bmad.Worker.Prepare.Holding.{IsQuiet, Leaves, Prepares, prepare_claimed_task-Prepares}
use follower_bmad.Worker.Prepare.Resolved.{Resolves, resolve_bootstrap-Resolves}
use follower_bmad.Worker.Served.{Surroundings, IsCalm, serve, execute_claimed_task-Leaves}
use follower_bmad.Tests.{sample_task, accounts_store, free_account, sample_proxy}
use follower_bmad.Tests.Services.{sample_metadata}
use follower_bmad.Tests.Worker.{sample_loop, confirmed}

abbrev no_faults : Faults
no_faults = record {
  on_check = none;
  on_claim = none;
  on_release = none;
  on_get = none;
  on_update = none;
}

abbrev logged_in : LoginResult
logged_in = record {
  outcome = login_success;
  session_payload = codes "{}";
  auth_screenshots = (codes "login form", 137 ∷ []) ∷ [];
  engine = codes "playwright";
  duration_ms = pos 40;
}

-- The accounts in the database; the account has no session, and a login gives one.
abbrev services : Services Store
services = record {
  repo = postgres no_faults 6;
  guardrails = default_runtime_guardrails;
  callers = [];
  restore = λ id w.
      (err (domain_error (new_domain_error session_metadata_not_found (text "not found"))), w);
  has_completer = true;
  complete = λ id claimed_by c w. (ok sample_task, w);
  has_login = true;
  login = λ i w. (ok logged_in, w);
  has_saver = true;
  save_session = λ id login payload w. (ok sample_metadata, w);
  has_artifacts = true;
  save_artifact = λ id login payload w. (ok (codes "one/artifacts/3.json"), w);
  login_enabled = true;
  allow_missing_payload = false;
  json_valid = λ payload. true;
}

services-IsQuiet : IsQuiet holder services
services-IsQuiet = record {
  guard = postgres-IsExclusive no_faults 6;
  restore_keeps = λ id w j. refl;
  complete_keeps = λ id claimed_by c w j. refl;
  login_keeps = λ i w j. refl;
  save_keeps = λ id login payload w j. refl;
  artifact_keeps = λ id login payload w j. refl;
}

prepare_claimed_task-Prepares_example :
    Prepares holder services services-IsQuiet 1 sample_task.claimed_by accounts_store
      (prepare_claimed_task services sample_task accounts_store)
prepare_claimed_task-Prepares_example =
    prepare_claimed_task-Prepares holder services services-IsQuiet sample_task accounts_store

abbrev unprepared : Prepared
unprepared = record {
  account_with_proxy = record { account = free_account; proxy = sample_proxy };
  session_metadata = no_session;
  session_payload = [];
  task_id = 11;
  attempt = pos 1;
  execution_context_id = sample_task.claimed_by;
  ready_for_follow_flow = false;
  bootstrap_required = true;
  bootstrap_reason = auth_bootstrap_required;
  bootstrap_source = session_metadata_not_found;
}

resolve_bootstrap-Resolves_example :
    Resolves holder services services-IsQuiet sample_task unprepared accounts_store
      (resolve_bootstrap services sample_task unprepared accounts_store)
resolve_bootstrap-Resolves_example =
    resolve_bootstrap-Resolves holder services services-IsQuiet sample_task unprepared
      accounts_store

abbrev surroundings : Surroundings Store
surroundings = record {
  is_ready = λ w. (true, w);
  claim = λ claimed_by w. (ok (some sample_task), w);
  run_follow = λ i w. (
    record {
      outcome = completed;
      diagnostics = record {
        engine = codes "playwright";
        warmup_completed = true;
        warmup_duration_ms = pos 10;
        execution_duration_ms = pos 20;
      };
      error = none;
    },
    w,
  );
  verify = λ i w. (record { result = confirmed; error = none }, w);
  finalize_follow = λ i w. (none, w);
  record_one = λ m w. w;
}

surroundings-IsCalm : IsCalm holder surroundings
surroundings-IsCalm = record {
  follow_keeps = λ i w j. refl;
  verify_keeps = λ i w j. refl;
  finalize_keeps = λ i w j. refl;
  record_keeps = λ m w j. refl;
}

execute_claimed_task-Leaves_example :
    Leaves holder services services-IsQuiet 1 sample_task.claimed_by accounts_store
      (perform
        (serve services surroundings)
        (execute_claimed_task sample_loop sample_task)
        accounts_store
        []).0
execute_claimed_task-Leaves_example =
    execute_claimed_task-Leaves holder services surroundings services-IsQuiet surroundings-IsCalm
      sample_task accounts_store sample_loop
