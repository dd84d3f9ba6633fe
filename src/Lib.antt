-- ===== src/Lib.antt =====
-- Verification of the follower service: tasks that follow a profile for an account are queued in
-- PostgreSQL, claimed by workers, run in a browser, verified, and completed.
--
-- Parts, and how they interact:
--   Errors    stackerr/errors.go, the error codes and errors of domain/invariants.go, and the
--             reading of an error's code with errors.As
--   Domain    package domain: Status, Task, Admin, Account, Session, Follow, History,
--             TargetProfile and Bootstrap
--   Credentials
--             package credentials: resolver.go
--   Repo      package repository/postgres: Table (rows with a primary key), Accounts (ClaimAccount,
--             ReleaseAccount, UpdateAccountState, ...), Tasks (Enqueue, EnqueueValidatedBatch,
--             ClaimNextQueued, Complete, ApplyAdminTransition, CancelTask, RetryFromTask, and the
--             CHECK constraints of db/migrations), Sessions (GetByAccountID, Upsert,
--             UpdateStatus, MarkRestored) and Results (Upsert, GetByTaskAttempt, ListHistory)
--   Storage   package storage: Keys and Sequence (object_keys.go), Objects (the object client, and the
--             stores of screenshots and artifacts) and Sessions (session_store.go)
--   Browser   package browser: Restorer (session_restorer.go), Verify (verify_flow.go), Rules
--             (oskelly_follow_rules.go), Follow (follow_flow.go, warmup_flow.go) and Login (the
--             runners of bootstrap_login_flow.go)
--   Worker    package worker: Policy (lifecycle_policy.go and the classifications of claim_loop.go),
--             Stages (what the loop reads off a stage's answer), Program (the calls of the claim
--             loop to its dependencies), Loop and Claimed (claim_loop.go), Guard (account_guard.go,
--             quota_service.go), Finalize (FinalizeFollowExecution of execution_service.go,
--             screenshot_payload.go), Prepare (its preparation and bootstrap) and Served (the loop
--             run against the service)
--   Http      package httptransport of transport/http: Csv (admin_csv_validator.go) and Import
--             (importCSV of admin_tasks_handler.go), over the queue of Repo
--   Tests     tasks, accounts and runs with concrete values
-- Paths are under internal/, from the root of the repository. The claim loop calls the task
-- repository and the execution service, which calls the account guard; both end in the tables of
-- Repo. Each file says which functions it is about.
--
-- How the code is read:
--   * A string is the list of its code points; a uuid.UUID is a number with 0 for uuid.Nil; an
--     instant is a number; []byte is a list of numbers; a nil error is `none`.
--   * A named string type is a data type with the source's constants and one more constructor for
--     every other text, the empty text included.
--   * An error keeps its code and its message. A message made by fmt.Sprintf keeps its format
--     string only, except where it is stored or read back: the reasons of completions and the
--     error of a failed session save are the exact texts.
--   * stackerr.WithStack is modelled in Errors.Stack and left out where it is called on the way up:
--     it changes neither the code nor the text of an error.
--   * A SQL statement is a function of the tables. `fault` is the error of the database connection
--     and rolls the transaction back; `now` is NOW(); `fresh` is uuid.New(); `locked` are the rows
--     that other transactions have locked. Complete reads and writes in separate statements, so it
--     takes what other connections do in between as an argument.
--   * Uniqueness and references are checked by the model's INSERT statements, that of a batch
--     included, and so are the CHECK constraints of follow_results and, in a batch, that of a blank
--     target. The other ones of tasks and account_sessions are not: they are a test of a row
--     (check_row, and the validation of a session's metadata). The constraint on the order of
--     claimed_at, started_at and finished_at is not modelled.
--   * The environment, the file system and the JSON decoder of the credentials resolver are fields
--     of Resolver; json.Valid is an argument.
--   * An account row is the domain.Account that scanning gives, NULL being uuid.Nil or "".
--   * An audit record that the code writes as best it can is lost where `audit_works` is false.
--   * The claim loop is a program: a tree of calls, each followed by what the code does with the
--     answer. It has no loop, so it needs no fuel; metrics are calls, logs are left out.
--   * The adapters that drive a browser are functions of their input, with any answer; their
--     runners are modelled. ctx.Err() is an argument; the errors of package context are told by
--     their texts. strings.ToLower, where it is applied to any text, uuid.Parse, and the reader of
--     encoding/csv are arguments.
--   * An object store is an interface with laws, which an in-memory bucket in Tests meets.
--
-- Not modelled: the playwright adapters of package browser, the handlers of transport/http but the
-- import, cli, config, app, logger and observability, the audit log itself, and the list and metric
-- queries of the task, account and session repositories.
pub mod Base
pub mod Text
pub mod Errors
pub mod Domain
pub mod Credentials
pub mod Repo
pub mod Storage
pub mod Browser
pub mod Worker
pub mod Http
mod Tests
