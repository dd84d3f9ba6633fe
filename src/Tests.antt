-- ===== src/Tests.antt =====
-- Concrete tasks, accounts and runs of the follower service.
mod Worker
mod Tasks
mod Accounts
mod Rules
mod Services
mod Batch
mod Queries
mod Storage
mod Preparing
mod Sessions
mod Credentials
mod Browser
mod Results
mod Http
use follower_bmad.Base.{ℕ, pos, Bool, true, false, Option, none, some, List, [], ◌∷◌}
use follower_bmad.Text.{Text, codes}
use follower_bmad.Domain.Ids.{no_code}
use follower_bmad.Domain.Status.{queued, running}
use follower_bmad.Domain.Task.{Task}
use follower_bmad.Domain.Account.{Account, Proxy, active, env, default_runtime_guardrails}
use follower_bmad.Repo.Tasks.{TaskRow, Store}
use follower_bmad.Repo.Accounts as AccountsRepo

abbrev pub worker_one : Text
worker_one = codes "worker-1"

abbrev pub target : Text
target = codes "target"

abbrev pub sample_task : Task
sample_task = record {
  id = 11;
  source_task_id = none;
  account_id = 1;
  target_profile = target;
  status = running;
  attempt = pos 1;
  claimed_by = worker_one;
  claimed_at = some 5;
  started_at = some 5;
  finished_at = none;
  error_code = no_code;
  result_reason = [];
  created_at = 2;
  updated_at = 5;
}

abbrev pub queued_sample : TaskRow
queued_sample = record {
  id = 12;
  source_task_id = none;
  account_id = 1;
  target_profile = target;
  status = queued;
  attempt = 0;
  claimed_by = none;
  claimed_at = none;
  started_at = none;
  finished_at = none;
  error_code = none;
  result_reason = none;
  created_at = 3;
  updated_at = 3;
}

abbrev pub running_sample : TaskRow
running_sample = record queued_sample {
  id = 11;
  status = running;
  attempt = 1;
  claimed_by = some worker_one;
  claimed_at = some 5;
  started_at = some 5;
  created_at = 2;
  updated_at = 5;
}

-- One task that worker-1 runs and one that waits.
abbrev pub tasks_store : Store
tasks_store = record {
  rows = running_sample ∷ queued_sample ∷ [];
  accounts = 1 ∷ [];
  audit_works = true;
  audit = [];
}

abbrev pub free_account : Account
free_account = record {
  id = 1;
  username = codes "one";
  proxy_id = 7;
  credential_source = env;
  credential_ref = codes "ONE";
  operational_state = active;
  is_active = true;
  is_ready = true;
  is_quarantined = false;
  is_restricted = false;
  limit_reached = false;
  active_execution_context_id = [];
  created_at = 1;
  updated_at = 1;
}

abbrev pub held_account : Account
held_account = record free_account { id = 2; active_execution_context_id = worker_one }

abbrev pub sample_proxy : Proxy
sample_proxy = record {
  id = 7;
  host = codes "proxy";
  port = 8080;
  is_active = true;
  created_at = 1;
  updated_at = 1;
}

-- A free account and one that worker-1 holds.
abbrev pub accounts_store : AccountsRepo.Store
accounts_store = record {
  accounts = free_account ∷ held_account ∷ [];
  proxies = sample_proxy ∷ [];
  guardrails = default_runtime_guardrails;
  audit_works = true;
  audit = [];
}
