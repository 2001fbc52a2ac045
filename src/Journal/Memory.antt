-- ===== src/Journal/Memory.antt =====
-- crates/nagisalake-journal/src/memory.rs: the journal as a map from job ids to records. A call
-- takes the map behind the lock, and returns the map that it leaves and its response.
pub mod Refinement
pub mod Histories
pub mod Replay
use nagisa_lake.Prelude.{
  ℕ, ◌==◌, String, Bool, ◌||◌, not, Option, none, some, List, [], ◌∷◌, if◌then◌else◌, Result, ok,
  err, Dict, get, insert, retain, is_some, map,
}
use nagisa_lake.Protocol.Json.{JsonOps}
use nagisa_lake.Protocol.Messages.{DispatchJob, JobEvent}
use nagisa_lake.Core.{JobState, JobRecord, is_terminal, can_transition_to, new_received}
use nagisa_lake.Journal.Spec.{Request, upsert, set_state, set_prompt, set_pending, clear_pending}
use nagisa_lake.Journal.State.{
  JournalError, not_found, dispatch_conflict, invalid_transition, validate_event_sequence,
  same_dispatch_identity,
}

abbrev pub Records : Type 0 → Type 0
Records J = Dict (JobRecord J)

abbrev pub Reply : Type 0 → Type 0 → Type 0
Reply J A = Records J × Result JournalError A

unfoldable pub upsert_dispatch :
    {J : Type 0} → JsonOps J → Records J → DispatchJob J → Reply J (JobRecord J)
upsert_dispatch ops records d = elim (get d.job_id records) [
  | none ↦ (insert d.job_id (new_received d) records, ok (new_received d))
  | some r ↦
      if not (same_dispatch_identity ops r.dispatch d)
      then (records, err (dispatch_conflict d.job_id))
      else (if not (is_terminal r.state)
          then (insert d.job_id (record r { dispatch = d }) records, ok (record r { dispatch = d }))
          else (records, ok r))
]

unfoldable pub get_job : {J : Type 0} → Records J → String → Option (JobRecord J)
get_job records job_id = get job_id records

unfoldable pub unfinished : {J : Type 0} → JobRecord J → Bool
unfinished r = not (is_terminal r.state) || is_some r.pending_event

unfoldable pub list_unfinished : {J : Type 0} → Records J → List (JobRecord J)
unfolding unfinished
list_unfinished records = retain unfinished (map (λ e. e.1) records)

unfoldable pub set_job_state : {J : Type 0} → Records J → String → JobState → Reply J (Unit {0})
set_job_state records job_id next = elim (get job_id records) [
  | none ↦ (records, err (not_found job_id))
  | some r ↦
      if not (can_transition_to r.state next)
      then (records, err (invalid_transition r.state next))
      else (insert job_id (record r { state = next }) records, ok tt)
]

unfoldable pub set_prompt_id : {J : Type 0} → Records J → String → String → Reply J (Unit {0})
set_prompt_id records job_id prompt_id = elim (get job_id records) [
  | none ↦ (records, err (not_found job_id))
  | some r ↦ (insert job_id (record r { prompt_id = some prompt_id }) records, ok tt)
]

-- The state that the event asks for, after the check of the transition.
unfoldable pub next_state : JobState → Option JobState → Result JournalError JobState
next_state current none = ok current
next_state current (some next) =
    if not (can_transition_to current next) then err (invalid_transition current next) else ok next

unfoldable pub set_pending_event :
    {J : Type 0} → Records J → JobEvent → Option JobState → Reply J (Unit {0})
unfolding next_state
set_pending_event records event state = elim (get event.job_id records) [
  | none ↦ (records, err (not_found event.job_id))
  | some r ↦ elim (validate_event_sequence r.event_sequence r.pending_event event) [
    | err e ↦ (records, err e)
    | ok _ ↦ elim (next_state r.state state) [
      | err e ↦ (records, err e)
      | ok next ↦ (
        insert event.job_id
            (record r { state = next; event_sequence = event.sequence; pending_event = some event })
            records,
        ok tt,
      )
    ]
  ]
]

unfoldable pub clear_pending_event : {J : Type 0} → Records J → String → ℕ → Reply J (Unit {0})
clear_pending_event records job_id sequence = elim (get job_id records) [
  | none ↦ (records, ok tt)
  | some r ↦
      if r.event_sequence == sequence
      then (insert job_id (record r { pending_event = none }) records, ok tt)
      else (records, ok tt)
]

error_of : {A : Type 0} → Result JournalError A → Option JournalError
error_of (ok a) = none
error_of (err e) = some e

-- One request that changes the journal: what it leaves, and the error that it answers with.
unfoldable pub handle :
    {J : Type 0} → JsonOps J → Records J → Request J → Records J × Option JournalError
unfolding error_of upsert_dispatch set_job_state set_prompt_id set_pending_event clear_pending_event
handle ops m (upsert d) = let (m', r) = upsert_dispatch ops m d in (m', error_of r)
handle ops m (set_state k s) = let (m', r) = set_job_state m k s in (m', error_of r)
handle ops m (set_prompt k p) = let (m', r) = set_prompt_id m k p in (m', error_of r)
handle ops m (set_pending e s) = let (m', r) = set_pending_event m e s in (m', error_of r)
handle ops m (clear_pending k n) = let (m', r) = clear_pending_event m k n in (m', error_of r)

unfoldable pub run : {J : Type 0} → JsonOps J → Records J → List (Request J) → Records J
run ops m [] = m
run ops m (q ∷ qs) = run ops (handle ops m q).0 qs
