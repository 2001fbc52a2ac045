-- ===== src/Hub/Jobs/Events.antt =====
-- apps/nagisalake-hub/src/hub/worker.rs: `apply_job_event`, with the answers of the store as arguments.
use nagisa_lake.Prelude.{
  ℕ, ◌-◌, String, Bool, true, false, not, ◌&&◌, ◌||◌, Option, none, some, List, [], ◌∷◌, ◌++◌,
  length, drop, any, if◌then◌else◌, ltb, leb, ◌==◌, ◌=ˢ◌, get, Result, ok, err,
}
use Prim.Native.String.{◌++◌ as join}
use nagisa_lake.Protocol.Messages.{I64, pos, negsuc, JobEvent, JobEventKind, JobEventAck}
use nagisa_lake.Core.{
  JobState, received, accepted, running, uploading, completed, failed, cancelled, can_transition_to,
  is_terminal,
}
use nagisa_lake.Hub.Jobs.{
  HubError, invalid_config, not_found, conflict, JobEventView, JobView, JobRecord, HubData, max_i64,
  state_eq, or, same_id, forget_job, update_job, matches_snapshot,
}
use nagisa_lake.Hub.Jobs.Names.{parse_job_state, job_state_name}

abbrev pub max_resident_job_events : ℕ
max_resident_job_events = 256

unfoldable pub can_recover_forward_transition : JobState → JobState → Bool
can_recover_forward_transition received running = true
can_recover_forward_transition received uploading = true
can_recover_forward_transition received completed = true
can_recover_forward_transition accepted uploading = true
can_recover_forward_transition accepted completed = true
can_recover_forward_transition running completed = true
can_recover_forward_transition _ _ = false

unfoldable pub next_state : JobEventKind → JobState
next_state JobEventKind.accepted = accepted
next_state JobEventKind.running = running
next_state JobEventKind.progressed = running
next_state JobEventKind.uploading = uploading
next_state JobEventKind.completed = completed
next_state JobEventKind.failed = failed
next_state JobEventKind.cancelled = cancelled

unfoldable pub can_move : JobState → JobState → Bool
can_move current next =
    can_transition_to current next || can_recover_forward_transition current next

-- What the store has of a job: the row's state and last event, and `job_view_from_stored` of it.
pub record StoredJob (J : Type 0) : Type 0 where
  pub state : String
  pub last_event : I64
  pub durable : Result HubError (JobView J)

-- What the store answers to the requests of one call.
pub record Answers (J : Type 0) : Type 0 where
  pub job : Result HubError (Option (StoredJob J))
  pub released : Result HubError (Unit {0})
  pub rebound : Result HubError Bool
  pub applied : Result HubError Bool

-- `u64::try_from`.
unfoldable pub to_sequence : I64 → Result HubError ℕ
to_sequence (pos n) = ok n
to_sequence (negsuc n) = err (invalid_config "persisted job sequence is invalid")

-- The oldest events beyond the limit leave memory.
unfoldable pub trim_events : List JobEventView → List JobEventView
trim_events events =
    if ltb max_resident_job_events (length events)
    then drop (length events - max_resident_job_events) events
    else events

-- Whether an event is applied, and whether it is appended to the job's events.
pub record Verdict : Type 0 where
  pub apply_event : Bool
  pub append_event : Bool

unfoldable pub event_view : JobEvent → JobEventView
event_view event = record {
  sequence = event.sequence;
  kind = event.kind;
  progress = event.progress;
  message = event.message;
  unix_ms = event.unix_ms;
}

unfoldable pub event_error : JobEvent → Option String
event_error event = elim event.kind [
  | JobEventKind.failed ↦ if event.message =ˢ "" then none else some event.message
  | JobEventKind.cancelled ↦ if event.message =ˢ "" then none else some event.message
  | _ ↦ none
]

-- The acknowledgement of an event.
abbrev pub ack : JobEvent → JobEventAck
ack event = record { job_id = event.job_id; sequence = event.sequence }

module _ {J : Type 0} where
  -- The resident job is ahead of the row, or no step leads from it to the row.
  unfoldable pub keeps_current : ℕ → JobState → JobRecord J → Bool
  unfolding can_move
  keeps_current persisted durable current =
      ltb persisted current.last_event
      || ((current.last_event == persisted)
          && (state_eq current.view.state durable || not (can_move current.view.state durable)))

  unfoldable pub adopt_durable : ℕ → JobView J → JobRecord J → JobRecord J
  unfolding keeps_current max_i64
  adopt_durable persisted durable current =
      if keeps_current persisted durable.state current then current else record current {
        view = record (current.view) {
          state = durable.state;
          progress = durable.progress;
          prompt_id = durable.prompt_id;
          error = durable.error;
          events = durable.events;
          updated_at_unix_ms = max_i64 current.view.updated_at_unix_ms durable.updated_at_unix_ms;
        };
        last_event = persisted;
      }

  unfoldable pub reconcile_stored :
      Answers J → String → ℕ → HubData J → StoredJob J → HubData J × Result HubError Bool
  unfolding to_sequence
  reconcile_stored answers job_id sequence later stored = elim (parse_job_state stored.state) [
    | err e ↦ (later, err e)
    | ok persisted_state ↦ elim (to_sequence stored.last_event) [
      | err e ↦ (later, err e)
      | ok last ↦
          if is_terminal persisted_state
          then elim answers.released [
            | err e ↦ (later, err e)
            | ok u ↦ (forget_job job_id later, ok true)
          ]
          else (if ltb last sequence then (later, ok false) else elim stored.durable [
            | err e ↦ (later, err e)
            | ok view ↦ (update_job job_id (adopt_durable last view) later, ok true)
          ])
    ]
  ]

  unfoldable pub reconcile_persisted_job_event :
      Answers J → String → ℕ → HubData J → HubData J × Result HubError Bool
  unfolding reconcile_stored
  reconcile_persisted_job_event answers job_id sequence later = elim answers.job [
    | err e ↦ (later, err e)
    | ok none ↦ (later, ok false)
    | ok (some stored) ↦ reconcile_stored answers job_id sequence later stored
  ]

  unfoldable pub judge : JobRecord J → JobEvent → Result HubError Verdict
  unfolding next_state can_move
  judge job event =
      let next = next_state event.kind in
      if leb event.sequence job.last_event
      then ok (record {
        apply_event = not (state_eq job.view.state next) && can_move job.view.state next;
        append_event = false;
      })
      else (if not (can_move job.view.state next)
          then err (
              conflict (
                join "invalid event transition from "
                  (join (job_state_name job.view.state) (join " to " (job_state_name next)))))
          else ok (record { apply_event = true; append_event = true }))

  module _ (snapshot : JobRecord J) (event : JobEvent) where
    -- What the event makes of the job that was read, and so of the resident one.
    unfoldable pub merged : Bool → Bool → I64 → String → JobRecord J → JobRecord J
    unfolding next_state event_view event_error trim_events max_i64
    merged append_event guarded now session_id current = record current {
      view = record (current.view) {
        session_id =
            if guarded && (current.view.session_id =ˢ snapshot.view.session_id)
            then session_id
            else current.view.session_id;
        state = next_state event.kind;
        progress = or event.progress snapshot.view.progress;
        prompt_id = or event.prompt_id snapshot.view.prompt_id;
        error = event_error event;
        updated_at_unix_ms = max_i64 current.view.updated_at_unix_ms now;
        events =
            if append_event && not (any (λ v. v.sequence == event.sequence) current.view.events)
            then trim_events (current.view.events ++ (event_view event ∷ []))
            else current.view.events;
      };
      last_event = if append_event then event.sequence else snapshot.last_event;
    }

    -- The write at the end, on the data of that time.
    unfoldable pub commit_event :
        (has_store : Bool) → Bool → Bool → I64 → String → HubData J → HubData J
    unfolding matches_snapshot next_state forget_job merged
    commit_event has_store append_event guarded now session_id later =
        elim (get event.job_id later.jobs) [
          | none ↦ later
          | some current ↦
              if matches_snapshot snapshot current
              then (if is_terminal (next_state event.kind) && has_store
                  then forget_job event.job_id later
                  else update_job event.job_id (merged append_event guarded now session_id) later)
              else later
        ]

  -- `merge_adopted_job_session`, when the session is still the current one.
  unfoldable pub merge_adopted_job_session : ℕ → String → I64 → JobRecord J → JobRecord J
  unfolding max_i64
  merge_adopted_job_session attempt session_id now job =
      if not (job.dispatch.attempt == attempt) || is_terminal job.view.state
      then job
      else record job {
        view = record (job.view) {
          session_id = session_id;
          updated_at_unix_ms = max_i64 job.view.updated_at_unix_ms now;
        };
      }

  -- The Worker that sends the event runs this dispatch of the job.
  unfoldable pub owned : JobEvent → String → String → JobRecord J → Bool
  owned event organization_id worker_id job =
      (job.worker_organization_id =ˢ organization_id)
      && (job.view.worker_id =ˢ worker_id)
      && (event.attempt == job.dispatch.attempt)

  module _ (store : Option (Answers J)) (guarded : Bool) (now : I64) (session_id : String)
      (event : JobEvent) where
    -- The answer once the store has been asked what it has.
    unfoldable pub reconciled :
        Answers J → HubError → HubData J → HubData J × Result HubError JobEventAck
    unfolding reconcile_persisted_job_event
    reconciled answers otherwise later =
        let (data', done) =
          reconcile_persisted_job_event answers event.job_id event.sequence later in
        elim done [
          | err e ↦ (data', err e)
          | ok true ↦ (data', ok (ack event))
          | ok false ↦ (data', err otherwise)
        ]

    -- An event that changes nothing but the session of its job.
    unfoldable pub adopt_only : JobRecord J → HubData J → HubData J × Result HubError JobEventAck
    unfolding merge_adopted_job_session
    adopt_only snapshot later =
        let adopted : HubData J =
          if guarded
          then update_job event.job_id
              (merge_adopted_job_session snapshot.dispatch.attempt session_id now) later
          else later in
        if snapshot.view.session_id =ˢ session_id then (later, ok (ack event)) else elim store [
          | none ↦ (adopted, ok (ack event))
          | some answers ↦ elim answers.rebound [
            | err e ↦ (later, err e)
            | ok true ↦ (adopted, ok (ack event))
            | ok false ↦ (later, err (conflict "job changed while adopting the worker session"))
          ]
        ]

    unfoldable pub apply_verdict :
        JobRecord J → Verdict → HubData J → HubData J × Result HubError JobEventAck
    unfolding commit_event adopt_only reconciled
    apply_verdict snapshot verdict later =
        if not verdict.apply_event then adopt_only snapshot later else elim store [
          | none ↦ (
            commit_event snapshot event false verdict.append_event guarded now session_id later,
            ok (ack event),
          )
          | some answers ↦ elim answers.applied [
            | err e ↦ (later, err e)
            | ok true ↦ (
              commit_event snapshot event true verdict.append_event guarded now session_id later,
              ok (ack event),
            )
            | ok false ↦
                reconciled answers (conflict "job changed while applying an event; retry the event")
                  later
          ]
        ]

    unfoldable pub apply_job_event :
        (current_session : Option String)
        → String
        → String
        → HubData J
        → HubData J
        → HubData J × Result HubError JobEventAck
    unfolding owned judge apply_verdict reconciled
    apply_job_event current_session organization_id worker_id seen later =
        elim (get event.job_id seen.jobs) [
          | none ↦ elim store [
            | none ↦ (later, err (not_found "job"))
            | some answers ↦ reconciled answers (not_found "job") later
          ]
          | some snapshot ↦
              if not (owned event organization_id worker_id snapshot)
              then (later, ok (ack event))
              else (if not (same_id current_session (some session_id))
                  then (later, err (conflict "stale worker session"))
                  else elim (judge snapshot event) [
                    | err e ↦ (later, err e)
                    | ok verdict ↦ apply_verdict snapshot verdict later
                  ])
        ]
