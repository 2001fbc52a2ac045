-- ===== src/Examples/Resident.antt =====
-- Events and cancellations of a resident job, on concrete values.
use nagisa_lake.Prelude.{ℕ, ◌≡◌, refl, true, none, some, [], ◌∷◌, get, put, Result, ok, arith}
use nagisa_lake.Protocol.Messages.{pos, JobEvent, JobEventAck, accepted}
use nagisa_lake.Core.{received, running, can_transition_to, stays_or_binds, advances, is_terminal}
use nagisa_lake.Hub.Jobs.{
  HubError, conflict, JobRecord, HubData, matches_snapshot, update_job, state_eq,
}
use nagisa_lake.Hub.Jobs.Events.{
  ack, owned, judge, next_state, can_move, can_recover_forward_transition, merged, commit_event,
  apply_verdict, apply_job_event,
}
use nagisa_lake.Hub.Jobs.Names.{job_state_name}
use nagisa_lake.Hub.Jobs.Steps.{Related}
use nagisa_lake.Hub.Jobs.Evolves.{Evolves, apply_job_event-Evolves}
use nagisa_lake.Hub.Jobs.Resident.{HasTimeline, HasTimelines, apply_job_event-HasTimeline}
use nagisa_lake.Hub.Jobs.Errors.{apply_job_event-err}
use nagisa_lake.Hub.Jobs.Replay.{apply_job_event-replay}
use nagisa_lake.Hub.Jobs.Cancel.{cancel_job_locally}
use nagisa_lake.Hub.Jobs.Cancelled.{IsOutcome, cancel_job_locally-IsOutcome}
use nagisa_lake.Examples.Values.{dispatch_of, event_of}

-- A job that a Worker has received, without events yet.
abbrev pub resident_job : JobRecord ℕ
resident_job = record {
  organization_id = "tenant";
  actor_id = "user";
  actor_kind = "user";
  actor_user_id = some "user";
  worker_organization_id = "org";
  view = record {
    id = "job";
    workflow_id = "wf";
    workflow_version = "v1";
    parameters = 5;
    input_artifact_ids = [];
    output_artifact_ids = [];
    worker_id = "w1";
    session_id = "old";
    state = received;
    progress = none;
    prompt_id = none;
    error = none;
    events = [];
    created_at_unix_ms = pos 1;
    updated_at_unix_ms = pos 1;
  };
  dispatch = dispatch_of "job";
  last_event = 0;
}

abbrev resident_data : HubData ℕ
resident_data = record {
  artifacts = [];
  pending_uploads = [];
  jobs = ("job", resident_job) ∷ [];
  idempotency = [];
}

abbrev first_event : JobEvent
first_event = event_of "hello"

-- The event arrives in a newer session of the same Worker.
abbrev after_event : HubData ℕ × Result HubError JobEventAck
after_event =
    apply_job_event none true (pos 2) "new" first_event (some "new") "org" "w1" resident_data
      resident_data

acknowledged : after_event.1 ≡ ok (ack first_event)
unfolding apply_job_event get owned judge next_state can_move can_transition_to stays_or_binds
    advances can_recover_forward_transition state_eq apply_verdict commit_event matches_snapshot
acknowledged = refl

apply_job_event-Evolves_example : Related (Evolves none) resident_data after_event.0
apply_job_event-Evolves_example =
    apply_job_event-Evolves none true (pos 2) "new" first_event (some "new") "org" "w1"
      resident_data resident_data

apply_job_event-replay_example :
    apply_job_event none true
      (pos 3)
      "new"
      first_event
      (some "new")
      "org"
      "w1"
      after_event.0
      after_event.0
    ≡ (after_event.0, ok (ack first_event))
apply_job_event-replay_example =
    apply_job_event-replay true "new" first_event (some "new") "org" "w1" (pos 2) (pos 3)
      resident_data acknowledged

-- The job as the event leaves it.
abbrev running_job : JobRecord ℕ
running_job = merged resident_job first_event true true (pos 2) "new" resident_job

resident_after : get "job" after_event.0.jobs ≡ some running_job
unfolding apply_job_event get owned judge next_state can_move can_transition_to stays_or_binds
    advances can_recover_forward_transition state_eq apply_verdict commit_event matches_snapshot
    update_job put is_terminal
resident_after = refl

resident_job-HasTimeline : HasTimeline resident_job
unfolding HasTimeline
resident_job-HasTimeline = record { few = omega arith; ordered = omega arith }

nothing_stored : HasTimelines {J = ℕ} none
unfolding HasTimelines
nothing_stored = λ answers stored view last e f g h. absurd (ground arith)

apply_job_event-HasTimeline_example : HasTimeline running_job
apply_job_event-HasTimeline_example =
    apply_job_event-HasTimeline none true (pos 2) "new" first_event (some "new") "org" "w1"
      resident_data resident_data nothing_stored (resident_job-HasTimeline, tt) "job" running_job
      resident_after

-- A running job is not accepted again: the transition is refused.
abbrev late_event : JobEvent
late_event = record (event_of "hello") { kind = accepted; sequence = 9 }

abbrev started_data : HubData ℕ
started_data = record resident_data {
  jobs =
      ("job", record resident_job { view = record (resident_job.view) { state = running } }) ∷ [];
}

apply_job_event-err_example :
    (apply_job_event none true
      (pos 2)
      "old"
      late_event
      (some "old")
      "org"
      "w1"
      started_data
      started_data).0
    ≡ started_data
unfolding apply_job_event get owned judge next_state can_move can_transition_to stays_or_binds
    advances can_recover_forward_transition job_state_name
apply_job_event-err_example =
    apply_job_event-err none true (pos 2) "old" late_event (some "old") "org" "w1" started_data
      started_data (conflict "invalid event transition from running to accepted") refl

cancel_job_locally-IsOutcome_example :
    IsOutcome "job" resident_job resident_data
      (cancel_job_locally none (pos 2) "job" resident_data resident_data)
unfolding get is_terminal
cancel_job_locally-IsOutcome_example =
    cancel_job_locally-IsOutcome none (pos 2) "job" resident_data resident_data resident_job refl
      refl
