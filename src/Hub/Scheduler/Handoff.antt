-- ===== src/Hub/Scheduler/Handoff.antt =====
-- Which Worker apps/nagisalake-hub/src/hub/scheduler.rs asks the store to bind a job to, and what
-- becomes of the slot that it has reserved there.
use nagisa_lake.Prelude.{ℕ, ◌<◌, ◌^◌, ◌≡◌, ◌≢◌, String, true, false, some, List, ◌∷◌, get, ok}
use nagisa_lake.Protocol.Messages.{pos, WorkflowCapability, total_capacity}
use nagisa_lake.Hub.Sessions.{
  WorkerView, WorkerSession, SessionRegistry, contains, current, session_key, worker_capacity_load,
}
use nagisa_lake.Hub.Sessions.Reserve.{reserved}
use nagisa_lake.Hub.Scheduler.{QueuedJob, Answers, dispatch_command_id}

-- The workflow of the job, in its version, is one of those that a Worker announced.
pub data IsInstalled {J : Type 0} (job : QueuedJob) : List (WorkflowCapability J) → Type 0 where
  first :
      {wf : WorkflowCapability J} {wfs : List (WorkflowCapability J)}
      → wf.id ≡ job.workflow_id
      → wf.version ≡ job.workflow_version
      → IsInstalled job (wf ∷ wfs)
  further :
      {wf : WorkflowCapability J} {wfs : List (WorkflowCapability J)}
      → IsInstalled job wfs
      → IsInstalled job (wf ∷ wfs)

module _ {J : Type 0} where
  -- What holds when a slot has been reserved: where, and what the directory then has.
  record IsReserved (g : SessionRegistry J) (job : QueuedJob) (command_id : String)
      (r : SessionRegistry J) (worker : WorkerView J) : Type 0 where
    pub session : WorkerSession J
    pub connected : get (session_key job.target_org job.target_device) g.inner ≡ some session
    pub installed : IsInstalled job session.view.capabilities.workflows
    pub roomy : worker_capacity_load session < total_capacity session.view.capabilities
    pub same_session : worker.session_id ≡ session.view.session_id
    pub held :
        get (session_key job.target_org job.target_device) r.inner
        ≡ some (reserved command_id session)

  module _ (show : ℕ → String) where
    -- What a dispatch that asks the store to bind its job has done.
    pub record IsHandoff (answers : Answers) (meanwhile : SessionRegistry J → SessionRegistry J)
        (job_id : String) (g : SessionRegistry J) (worker : WorkerView J) (r : SessionRegistry J)
        : Type 0 where
      pub job : QueuedJob
      pub attempt : ℕ
      pub row : answers.info ≡ ok (some job)
      pub numbered : (job.attempt ≡ pos attempt) × (attempt < 2 ^ 32)
      pub session : WorkerSession J
      pub connected : get (session_key job.target_org job.target_device) g.inner ≡ some session
      pub installed : IsInstalled job session.view.capabilities.workflows
      pub roomy : worker_capacity_load session < total_capacity session.view.capabilities
      pub same_session : worker.session_id ≡ session.view.session_id
      -- Bound: the slot is held when the store is asked, and is not given back.
      pub kept :
          answers.bound ≡ ok true
          → (held : SessionRegistry J) × (s : WorkerSession J) × (get
                (session_key job.target_org job.target_device)
                held.inner
              ≡ some s)
            × (contains (dispatch_command_id show job_id attempt) s.pending_capacity_reservations
                ≡ true)
            × (r ≡ meanwhile held)
      -- Not bound, or an error: the session holds nothing for the command.
      pub freed :
          answers.bound ≢ ok true
          → (s : WorkerSession J)
          → current r worker.organization_id worker.worker_id worker.session_id ≡ some s
          → (contains (dispatch_command_id show job_id attempt) s.pending_capacity_reservations
              ≡ false)
            × (contains (dispatch_command_id show job_id attempt) s.confirmed_capacity_reservations
                ≡ false)
