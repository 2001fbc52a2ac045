-- ===== src/Core.antt =====
-- crates/nagisalake-core/src/lib.rs: the life of a job as a state machine, and a job's record.
pub mod Lifecycle
use nagisa_lake.Prelude.{
  ℕ, String, Bool, true, false, ◌||◌, Option, none, Result, ok, err, if◌then◌else◌, not,
}
use nagisa_lake.Protocol.Messages.{DispatchJob, JobEvent}

pub data JobState : Type 0 where
  queued received accepted running uploading completed failed cancelled : JobState

unfoldable pub is_terminal : JobState → Bool
is_terminal completed = true
is_terminal failed = true
is_terminal cancelled = true
is_terminal _ = false

-- The first `matches!` of `can_transition_to`: a state and itself, and the ways out of `queued`.
unfoldable pub stays_or_binds : JobState → JobState → Bool
stays_or_binds queued queued = true
stays_or_binds queued received = true
stays_or_binds queued cancelled = true
stays_or_binds received received = true
stays_or_binds accepted accepted = true
stays_or_binds running running = true
stays_or_binds uploading uploading = true
stays_or_binds completed completed = true
stays_or_binds failed failed = true
stays_or_binds cancelled cancelled = true
stays_or_binds _ _ = false

-- The second one: the work itself.
unfoldable pub advances : JobState → JobState → Bool
advances received accepted = true
advances received failed = true
advances received cancelled = true
advances accepted running = true
advances accepted failed = true
advances accepted cancelled = true
advances running uploading = true
advances running failed = true
advances running cancelled = true
advances uploading completed = true
advances uploading failed = true
advances _ _ = false

unfoldable pub can_transition_to : JobState → JobState → Bool
unfolding stays_or_binds advances
can_transition_to current next = stays_or_binds current next || advances current next

pub record JobRecord (J : Type 0) : Type 0 where
  pub dispatch : DispatchJob J
  pub state : JobState
  pub prompt_id : Option String
  pub event_sequence : ℕ  -- u64
  pub pending_event : Option JobEvent

unfoldable pub new_received : {J : Type 0} → DispatchJob J → JobRecord J
new_received d = record {
  dispatch = d;
  state = received;
  prompt_id = none;
  event_sequence = 0;
  pending_event = none;
}

-- `NagisaError::InvalidStateTransition`.
pub data TransitionError : Type 0 where
  invalid_state_transition : JobState → JobState → TransitionError

unfoldable pub transition :
    {J : Type 0} → JobRecord J → JobState → Result TransitionError (JobRecord J)
transition r next =
    if not (can_transition_to r.state next)
    then err (invalid_state_transition r.state next)
    else ok (record r { state = next })
