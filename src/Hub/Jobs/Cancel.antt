-- ===== src/Hub/Jobs/Cancel.antt =====
-- apps/nagisalake-hub/src/hub/jobs.rs and hub/worker.rs: cancellations, and errors of a dispatch. The
-- answers of the store and of the Worker are arguments.
use nagisa_lake.Prelude.{
  String, Bool, true, false, not, ◌&&◌, ◌||◌, Option, none, some, if◌then◌else◌, ◌=ˢ◌, get, put,
  remove, is_some, Result, ok, err,
}
use nagisa_lake.Protocol.Messages.{I64, CommandAck}
use nagisa_lake.Core.{queued, failed, cancelled, is_terminal}
use nagisa_lake.Auth.{Principal, principal_allows, jobs_cancel_any, jobs_cancel_own}
use nagisa_lake.Hub.Jobs.{
  HubError, conflict, unavailable, JobView, JobRecord, HubData, max_i64, state_eq, same_id,
  matches_snapshot, update_job,
}

module _ {J : Type 0} where
  -- The resident job is what was read.
  unfoldable pub unchanged : String → JobRecord J → HubData J → Bool
  unfolding matches_snapshot
  unchanged job_id snapshot data' = elim (get job_id data'.jobs) [
    | none ↦ false
    | some job ↦ matches_snapshot snapshot job
  ]

  unfoldable pub cancelled_view : String → I64 → JobView J → JobView J
  unfolding max_i64
  cancelled_view message now view = record view {
    state = cancelled;
    error = some message;
    updated_at_unix_ms = max_i64 view.updated_at_unix_ms now;
  }

  -- The write of a cancellation, on the data of its time.
  unfoldable pub commit_cancellation :
      (has_store : Bool)
      → I64
      → String
      → String
      → JobRecord J
      → HubData J
      → HubData J × Result HubError (JobView J)
  unfolding unchanged cancelled_view
  commit_cancellation has_store now message job_id snapshot later = elim (get job_id later.jobs) [
    | none ↦ (later, err (conflict "job advanced while cancellation was being applied"))
    | some job ↦
        let view = cancelled_view message now job.view in
        if not (matches_snapshot snapshot job)
        then (later, err (conflict "job advanced while cancellation was being applied"))
        else (
          if has_store
              then record later { jobs = remove job_id later.jobs }
              else record later { jobs = put job_id (record job { view = view }) later.jobs },
          ok view,
        )
  ]

  unfoldable pub cancel_job_locally :
      (store : Option (Result HubError Bool))
      → I64
      → String
      → HubData J
      → HubData J
      → HubData J × Result HubError (JobView J)
  unfolding commit_cancellation state_eq
  cancel_job_locally store now job_id seen later = elim (get job_id seen.jobs) [
    | none ↦ (later, err (conflict "job changed while cancellation was pending"))
    | some current ↦
        let message : String =
          if state_eq current.view.state queued
          then "cancelled before worker dispatch"
          else "cancelled while the worker was disconnected" in
        if is_terminal current.view.state then (later, ok current.view) else elim store [
          | none ↦ commit_cancellation false now message job_id current later
          | some (err e) ↦ (later, err e)
          | some (ok false) ↦
              (later, err (conflict "job advanced while cancellation was being committed"))
          | some (ok true) ↦ commit_cancellation true now message job_id current later
        ]
  ]

  -- Through the Worker, if it is connected; locally, if it is not or does not answer.
  unfoldable pub send_job_cancellation :
      (store : Option (Result HubError Bool))
      → (session : Option String) → (sent : Result HubError CommandAck) → I64
      → JobRecord J
      → HubData J
      → HubData J
      → HubData J × Result HubError (JobView J)
  unfolding cancel_job_locally state_eq
  send_job_cancellation store session sent now job seen later =
      let locally = cancel_job_locally store now job.view.id seen later in
      let through : HubData J × Result HubError (JobView J) = elim sent [
        | ok a ↦ if a.accepted then (later, ok job.view) else (
          later,
          err (conflict (if a.message =ˢ "" then "worker rejected cancellation" else a.message)),
        )
        | err (conflict m) ↦ locally
        | err (unavailable m) ↦ locally
        | err e ↦ (later, err e)
      ] in
      if state_eq job.view.state queued || not (is_some session) then locally else through

  unfoldable pub principal_can_cancel_job : Principal → JobRecord J → Bool
  unfolding principal_allows
  principal_can_cancel_job principal job =
      principal_allows principal jobs_cancel_any
      || (principal_allows principal jobs_cancel_own && same_id principal.user_id job.actor_user_id)

  -- `update_job_error`, with the message cut to its length; a store that fails or that has moved on
  -- leaves memory as it is.
  unfoldable pub update_job_error :
      (store : Option (Result HubError Bool))
      → I64
      → String
      → String
      → (terminal : Bool) → HubData J
      → HubData J
      → HubData J
  unfolding unchanged max_i64
  update_job_error store now job_id error_message terminal seen later =
      let failing : JobRecord J → JobRecord J = λ current. record current {
        view = record (current.view) {
          state = if terminal then failed else current.view.state;
          error = some error_message;
          updated_at_unix_ms = max_i64 current.view.updated_at_unix_ms now;
        };
      } in
      elim (get job_id seen.jobs) [
        | none ↦ later
        | some job ↦ if is_terminal job.view.state then later else elim store [
          | some (err e) ↦ later
          | some (ok false) ↦ later
          | some (ok true) ↦
              if not (unchanged job_id job later)
              then later
              else (if terminal
                  then record later { jobs = remove job_id later.jobs }
                  else update_job job_id failing later)
          | none ↦
              if not (unchanged job_id job later) then later else update_job job_id failing later
        ]
      ]
