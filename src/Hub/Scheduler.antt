-- ===== src/Hub/Scheduler.antt =====
-- apps/nagisalake-hub/src/hub/scheduler.rs: queued jobs are bound to Workers that have room. The
-- answers of the store are arguments; so is what other tasks do to the directory of Workers while the
-- pass waits for them. Counters of metrics are left out.
use nagisa_lake.Prelude.{
  ℕ, zero, suc, ◌^◌, String, Bool, true, false, ◌&&◌, Option, none, some, List, [], ◌∷◌, any,
  if◌then◌else◌, ltb, ◌=ˢ◌, Result, ok, err,
}
use Prim.Native.String.{◌++◌ as join}
use nagisa_lake.Protocol.Messages.{I64, pos, negsuc}
use nagisa_lake.Hub.Jobs.{HubError, invalid_config}
use nagisa_lake.Hub.Sessions.{WorkerView, SessionRegistry}
use nagisa_lake.Hub.Sessions.Reserve.{reserve_capacity_on}
use nagisa_lake.Hub.Sessions.Settle.{release_capacity_reservation}
pub mod Leases
pub mod Handoff

-- `queued_job_info`: the workflow and its version, the device with its organization, the attempt.
pub record QueuedJob : Type 0 where
  pub workflow_id : String
  pub workflow_version : String
  pub target_org : String
  pub target_device : String
  pub attempt : I64

-- What the store answers about one job of the queue.
pub record Answers : Type 0 where
  pub info : Result HubError (Option QueuedJob)
  pub bound : Result HubError Bool

-- `u32::try_from`.
unfoldable pub to_attempt : I64 → Result HubError ℕ
to_attempt (pos n) =
    if ltb n (2 ^ 32) then ok n else err (invalid_config "persisted dispatch attempt is invalid")
to_attempt (negsuc n) = err (invalid_config "persisted dispatch attempt is invalid")

-- `format!("dispatch:{job_id}:{attempt}")`, with the digits of the attempt.
unfoldable pub dispatch_command_id : (ℕ → String) → String → ℕ → String
dispatch_command_id show job_id attempt = join "dispatch:" (join job_id (join ":" (show attempt)))

-- One round of the loop: what is claimed, what the store answers, and what other tasks do to the
-- directory before a slot is reserved (the claim and the row of the job are waited for) and after
-- (the binding is waited for).
pub record Round (J : Type 0) : Type 0 where
  pub claimed : Result HubError (Option String)
  pub answers : Answers
  pub before : SessionRegistry J → SessionRegistry J
  pub meanwhile : SessionRegistry J → SessionRegistry J

module _ {J : Type 0} where
  -- `workflows.iter().any(…)`.
  unfoldable pub installs : QueuedJob → WorkerView J → Bool
  installs job worker =
      any (λ wf. (wf.id =ˢ job.workflow_id) && (wf.version =ˢ job.workflow_version))
        worker.capabilities.workflows

  module _ (show : ℕ → String) where
    -- The job is bound at the store, or the reservation goes.
    unfoldable pub bind_reserved :
        Answers
        → String
        → WorkerView J
        → SessionRegistry J
        → SessionRegistry J × Result HubError (Unit {0})
    unfolding release_capacity_reservation
    bind_reserved answers command_id worker later =
        let released =
          release_capacity_reservation later worker.organization_id worker.worker_id
            worker.session_id command_id in
        elim answers.bound [
          | err e ↦ (released, err e)
          | ok false ↦ (released, ok tt)
          | ok true ↦ (later, ok tt)
        ]

    -- The second component is the Worker that the store is asked to bind the job to.
    unfoldable pub dispatch_queued_job :
        Answers
        → (meanwhile : SessionRegistry J → SessionRegistry J) → String
        → SessionRegistry J
        → SessionRegistry J × Option (WorkerView J) × Result HubError (Unit {0})
    unfolding to_attempt installs dispatch_command_id bind_reserved reserve_capacity_on
    dispatch_queued_job answers meanwhile job_id reg = elim answers.info [
      | err e ↦ (reg, none, err e)
      | ok none ↦ (reg, none, ok tt)
      | ok (some job) ↦ elim (to_attempt job.attempt) [
        | err e ↦ (reg, none, err e)
        | ok attempt ↦
            let command_id = dispatch_command_id show job_id attempt in
            let reserved =
              reserve_capacity_on reg job.target_org job.target_device command_id (installs job) in
            elim reserved.1 [
              | none ↦ (reserved.0, none, ok tt)
              | some worker ↦
                  let bound = bind_reserved answers command_id worker (meanwhile reserved.0) in
                  (bound.0, some worker, bound.1)
            ]
      ]
    ]

    -- At most as many rounds as the fuel; a claim that fails or finds nothing ends the pass, and a
    -- dispatch that fails does not.
    unfoldable pub schedule_rounds : ℕ → List (Round J) → SessionRegistry J → SessionRegistry J
    unfolding dispatch_queued_job
    schedule_rounds zero rounds reg = reg
    schedule_rounds (suc n) [] reg = reg
    schedule_rounds (suc n) (round ∷ rounds) reg =
        let arrived = round.before reg in
        elim round.claimed [
          | err e ↦ arrived
          | ok none ↦ arrived
          | ok (some job_id) ↦
              schedule_rounds n rounds
                (dispatch_queued_job round.answers round.meanwhile job_id arrived).0
        ]

    unfoldable pub schedule_pass : List (Round J) → SessionRegistry J → SessionRegistry J
    unfolding schedule_rounds
    schedule_pass rounds reg = schedule_rounds 32 rounds reg
