-- ===== src/Hub/Jobs.antt =====
-- apps/nagisalake-hub/src/hub/state.rs and hub/worker.rs: the jobs that the Hub keeps in memory. An
-- operation reads a job, asks the store, and then, under the write lock, changes the job only if it
-- is still what was read. `seen` is the data at the first lock, `later` the data at the second one,
-- so whatever other tasks did in between is in `later`.
use nagisa_lake.Prelude.{
  ℕ, ◌-◌, min, max, String, Bool, true, false, not, ◌&&◌, ◌||◌, Option, none, some, List, [], ◌∷◌,
  ◌++◌, length, drop, retain, any, if◌then◌else◌, ltb, leb, ◌==◌, ◌=ˢ◌, Dict, get, put, remove,
  Result, ok, err,
}
use nagisa_lake.Protocol.Float.{F32}
use nagisa_lake.Protocol.Messages.{I64, pos, negsuc, DispatchJob, JobEvent, JobEventKind}
use nagisa_lake.Core.{
  JobState, queued, received, accepted, running, uploading, completed, failed, cancelled,
  can_transition_to, is_terminal,
}
pub mod Names
pub mod Events
pub mod Steps
pub mod Evolves
pub mod Resident
pub mod Errors
pub mod Replay
pub mod Cancel
pub mod Cancelled

pub data HubError : Type 0 where
  invalid_config unauthorized forbidden not_found invalid_request conflict : String → HubError
  unavailable object_store quota_exceeded : String → HubError
  rate_limited : ℕ → HubError
  -- What the store, the transport, a file or a socket reported.
  failed_store : HubError

pub data ArtifactState : Type 0 where
  pending_upload ready : ArtifactState

pub record ArtifactView : Type 0 where
  pub id : String
  pub job_id : Option String
  pub name : String
  pub content_type : String
  pub size_bytes : ℕ  -- u64
  pub sha256 : String
  pub state : ArtifactState

pub record ArtifactRecord : Type 0 where
  pub organization_id : String
  pub view : ArtifactView
  pub object_key : String

pub record JobEventView : Type 0 where
  pub sequence : ℕ  -- u64
  pub kind : JobEventKind
  pub progress : Option F32
  pub message : String
  pub unix_ms : I64

pub record JobView (J : Type 0) : Type 0 where
  pub id : String
  pub workflow_id : String
  pub workflow_version : String
  pub parameters : J
  pub input_artifact_ids : List String
  pub output_artifact_ids : List String
  pub worker_id : String
  pub session_id : String
  pub state : JobState
  pub progress : Option F32
  pub prompt_id : Option String
  pub error : Option String
  pub events : List JobEventView
  pub created_at_unix_ms : I64
  pub updated_at_unix_ms : I64

pub record JobRecord (J : Type 0) : Type 0 where
  pub organization_id : String
  pub actor_id : String
  pub actor_kind : String
  pub actor_user_id : Option String
  pub worker_organization_id : String
  pub view : JobView J
  pub dispatch : DispatchJob J
  pub last_event : ℕ  -- u64

pub record HubData (J : Type 0) : Type 0 where
  pub artifacts : Dict ArtifactRecord
  pub pending_uploads : Dict String
  pub jobs : Dict (JobRecord J)
  pub idempotency : Dict String

-- `i64::max`.
unfoldable pub max_i64 : I64 → I64 → I64
max_i64 (pos a) (pos b) = pos (max a b)
max_i64 (pos a) (negsuc b) = pos a
max_i64 (negsuc a) (pos b) = pos b
max_i64 (negsuc a) (negsuc b) = negsuc (min a b)

-- `==` on states.
unfoldable pub state_eq : JobState → JobState → Bool
state_eq queued queued = true
state_eq received received = true
state_eq accepted accepted = true
state_eq running running = true
state_eq uploading uploading = true
state_eq completed completed = true
state_eq failed failed = true
state_eq cancelled cancelled = true
state_eq _ _ = false

-- `Option::or`.
abbrev pub or : {A : Type 0} → Option A → Option A → Option A
or (some a) b = some a
or none b = b

abbrev pub same_id : Option String → Option String → Bool
same_id (some a) (some b) = a =ˢ b
same_id none none = true
same_id _ _ = false

module _ {J : Type 0} where
  -- The job leaves memory together with its artifacts.
  unfoldable pub forget_job : String → HubData J → HubData J
  forget_job job_id data' = record data' {
    jobs = remove job_id data'.jobs;
    artifacts = retain (λ e. not (same_id e.1.view.job_id (some job_id))) data'.artifacts;
  }

  -- A job that is resident is rewritten.
  unfoldable pub update_job : String → (JobRecord J → JobRecord J) → HubData J → HubData J
  update_job job_id f data' = elim (get job_id data'.jobs) [
    | none ↦ data'
    | some job ↦ record data' { jobs = put job_id (f job) data'.jobs }
  ]

  -- The job is what was read: `matches_snapshot`, `cache_matches`.
  unfoldable pub matches_snapshot : JobRecord J → JobRecord J → Bool
  unfolding state_eq
  matches_snapshot snapshot current =
      (current.dispatch.attempt == snapshot.dispatch.attempt)
      && state_eq current.view.state snapshot.view.state
      && (current.last_event == snapshot.last_event)
