-- ===== src/Journal/State.antt =====
-- crates/nagisalake-journal/src/state.rs and error.rs: the checks that both journals share.
pub mod Identity
pub mod Names
use nagisa_lake.Prelude.{
  ℕ, String, Bool, true, false, ◌&&◌, ◌||◌, not, Option, none, some, List, [], ◌∷◌, ltb, ◌==◌, ◌=ˢ◌,
  codes, eq_ignore_ascii_case, if◌then◌else◌, Result, ok, err, length, fail_if,
}
use nagisa_lake.Protocol.Json.{JsonOps}
use nagisa_lake.Protocol.Messages.{DispatchJob, JobInput, JobEvent}
use nagisa_lake.Protocol.Equality.{event_eq}
use nagisa_lake.Core.{
  JobState, queued, received, accepted, running, uploading, completed, failed, cancelled,
}

-- `JournalError`, less the two cases that only a database connection raises.
pub data JournalError : Type 0 where
  serialization : JournalError
  not_found : String → JournalError
  dispatch_conflict : String → JournalError
  invalid_state : String → JournalError
  invalid_transition : JobState → JobState → JournalError
  stale_event_sequence : ℕ → ℕ → JournalError

-- `pending_event != Some(event)`.
unfoldable pub differs : Option JobEvent → JobEvent → Bool
differs none event = true
differs (some pending) event = not (event_eq pending event)

unfoldable pub validate_event_sequence :
    ℕ → Option JobEvent → JobEvent → Result JournalError (Unit {0})
unfolding differs
validate_event_sequence current pending event =
    fail_if (ltb event.sequence current || ((event.sequence == current) && differs pending event))
      (stale_event_sequence current event.sequence)

unfoldable pub same_input : JobInput → JobInput → Bool
same_input a b =
    a.artifact_id =ˢ b.artifact_id
    && a.name =ˢ b.name
    && a.content_type =ˢ b.content_type
    && (a.size_bytes == b.size_bytes)
    && eq_ignore_ascii_case (codes a.sha256) (codes b.sha256)

-- `left.iter().zip(right).all(…)`: the shorter list decides how far.
unfoldable pub all_same_inputs : List JobInput → List JobInput → Bool
unfolding same_input
all_same_inputs (a ∷ xs) (b ∷ ys) = same_input a b && all_same_inputs xs ys
all_same_inputs _ _ = true

unfoldable pub same_dispatch_identity :
    {J : Type 0} → JsonOps J → DispatchJob J → DispatchJob J → Bool
unfolding all_same_inputs
same_dispatch_identity ops previous next =
    previous.job_id =ˢ next.job_id
    && (previous.attempt == next.attempt)
    && previous.workflow_id =ˢ next.workflow_id
    && previous.workflow_version =ˢ next.workflow_version
    && ops.json_eq previous.parameters next.parameters
    && (length previous.inputs == length next.inputs)
    && all_same_inputs previous.inputs next.inputs

unfoldable pub state_str : JobState → String
state_str queued = "queued"
state_str received = "received"
state_str accepted = "accepted"
state_str running = "running"
state_str uploading = "uploading"
state_str completed = "completed"
state_str failed = "failed"
state_str cancelled = "cancelled"

unfoldable pub parse_state : String → Result JournalError JobState
parse_state value =
    if value =ˢ "queued"
    then ok queued
    else if value =ˢ "received"
    then ok received
    else if value =ˢ "accepted"
    then ok accepted
    else if value =ˢ "running"
    then ok running
    else if value =ˢ "uploading"
    then ok uploading
    else if value =ˢ "completed"
    then ok completed
    else if value =ˢ "failed"
    then ok failed
    else if value =ˢ "cancelled"
    then ok cancelled
    else err (invalid_state value)
