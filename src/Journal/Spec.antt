-- ===== src/Journal/Spec.antt =====
-- What crates/nagisalake-journal promises: each request concerns one job, and does to that job what
-- `job_step` says, whether the journal keeps its jobs in memory or in a table.
pub mod Record
pub mod Outbox
use nagisa_lake.Prelude.{
  ℕ, ◌==◌, ltb, String, Bool, true, false, ◌&&◌, ◌||◌, not, Option, none, some, List, [], ◌∷◌,
  if◌then◌else◌,
}
use nagisa_lake.Protocol.Json.{JsonOps}
use nagisa_lake.Protocol.Messages.{DispatchJob, JobEvent}
use nagisa_lake.Core.{JobState, JobRecord, is_terminal, can_transition_to, new_received}
use nagisa_lake.Journal.State.{
  JournalError, not_found, dispatch_conflict, invalid_transition, stale_event_sequence, differs,
  same_dispatch_identity,
}

-- The requests that change the journal: `UpsertDispatch`, `SetJobState`, `SetPromptId`,
-- `SetPendingEvent` and `ClearPendingEvent` of crates/nagisalake-core/src/lib.rs.
pub data Request (J : Type 0) : Type 0 where
  upsert : DispatchJob J → Request J
  set_state : String → JobState → Request J
  set_prompt : String → String → Request J
  set_pending : JobEvent → Option JobState → Request J
  clear_pending : String → ℕ → Request J

-- The job that a request is about.
abbrev pub target : {J : Type 0} → Request J → String
target (upsert d) = d.job_id
target (set_state k s) = k
target (set_prompt k p) = k
target (set_pending e s) = e.job_id
target (clear_pending k n) = k

abbrev pub Outcome : Type 0 → Type 0
Outcome J = Option (JobRecord J) × Option JournalError

-- The state that a pending event leaves, unless its transition is refused.
unfoldable pub allowed : JobState → Option JobState → Bool
allowed s none = true
allowed s (some t) = can_transition_to s t

abbrev pub or_same : JobState → Option JobState → JobState
or_same s none = s
or_same s (some t) = t

-- An event is refused when it is older than the newest, or as old and another one.
unfoldable pub stale : {J : Type 0} → JobRecord J → JobEvent → Bool
stale r e =
    ltb e.sequence r.event_sequence
    || ((e.sequence == r.event_sequence) && differs r.pending_event e)

unfoldable pub job_step : {J : Type 0} → JsonOps J → Request J → Option (JobRecord J) → Outcome J
unfolding allowed stale
job_step ops (upsert d) none = (some (new_received d), none)
job_step ops (upsert d) (some r) =
    if same_dispatch_identity ops r.dispatch d
    then (some (if is_terminal r.state then r else record r { dispatch = d }), none)
    else (some r, some (dispatch_conflict d.job_id))
job_step ops (set_state k s) none = (none, some (not_found k))
job_step ops (set_state k s) (some r) =
    if can_transition_to r.state s
    then (some (record r { state = s }), none)
    else (some r, some (invalid_transition r.state s))
job_step ops (set_prompt k p) none = (none, some (not_found k))
job_step ops (set_prompt k p) (some r) = (some (record r { prompt_id = some p }), none)
job_step ops (set_pending e s) none = (none, some (not_found e.job_id))
job_step ops (set_pending e s) (some r) =
    if stale r e
    then (some r, some (stale_event_sequence r.event_sequence e.sequence))
    else (if allowed r.state s
        then (
          some (record r {
            state = or_same r.state s;
            event_sequence = e.sequence;
            pending_event = some e;
          }),
          none,
        )
        else (some r, some (invalid_transition r.state (or_same r.state s))))
job_step ops (clear_pending k n) none = (none, none)
job_step ops (clear_pending k n) (some r) =
    (some (if r.event_sequence == n then record r { pending_event = none } else r), none)

-- The requests of a history, as one job sees them.
unfoldable pub job_run :
    {J : Type 0}
    → JsonOps J
    → (Request J → Bool)
    → List (Request J)
    → Option (JobRecord J)
    → Option (JobRecord J)
job_run ops mine [] o = o
job_run ops mine (q ∷ qs) o = job_run ops mine qs (if mine q then (job_step ops q o).0 else o)
