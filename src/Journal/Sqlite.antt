-- ===== src/Journal/Sqlite.antt =====
-- crates/nagisalake-journal/src/sqlite.rs: the journal as the table `worker_jobs`. A table is the
-- list of its rows. A call takes the table and the clock, and returns the table that it commits and
-- its response; an early return drops the transaction, which leaves the table as it was.
pub mod WorkerJobs
pub mod Decode
pub mod Represents
pub mod Events
pub mod Frame
pub mod Refinement
use nagisa_lake.Prelude.{
  ℕ, ◌-◌, ◌^◌, ◌==◌, ltb, leb, ◌&&◌, String, Bool, true, false, ◌||◌, not, Option, none, some, List,
  [], ◌∷◌, if◌then◌else◌, Result, ok, err, ok_or, ◌>>=◌, is_some, retain, ◌=ˢ◌, ◌++◌,
}
use nagisa_lake.Protocol.Json.{JsonOps}
use nagisa_lake.Protocol.Messages.{DispatchJob, JobEvent, I64, pos, negsuc}
use nagisa_lake.Core.{JobState, JobRecord, is_terminal, can_transition_to, new_received}
use nagisa_lake.Journal.State.{
  JournalError, serialization, not_found, dispatch_conflict, invalid_transition,
  validate_event_sequence, same_dispatch_identity, state_str, parse_state,
}
use nagisa_lake.Journal.Spec.{Request, upsert, set_state, set_prompt, set_pending, clear_pending}
use WorkerJobs.{Row, Table, find, insert_row, update_where, rows_affected}
use Decode.{
  Serde, Codec, to_i64, to_u64, i64_eq, EventHead, decode_pending, decode_job, decode_event_head,
}

abbrev pub Reply : Type 0 → Type 0
Reply A = Table × Result JournalError A

unfoldable pub ensure_updated : String → ℕ → Result JournalError (Unit {0})
ensure_updated job_id n = if n == 0 then err (not_found job_id) else ok tt

module _ {J : Type 0} (codec : Codec J) where
  -- `INSERT INTO worker_jobs (…) VALUES (?, ?, 'received', 0, ?)`.
  unfoldable pub received_row : DispatchJob J → String → I64 → Row
  received_row d payload now = record {
    job_id = d.job_id;
    dispatch_json = payload;
    state = "received";
    prompt_id = none;
    event_sequence = pos 0;
    pending_event_json = none;
    updated_at = now;
  }

  upsert_found :
      JsonOps J → Table → I64 → DispatchJob J → String → JobRecord J → Reply (JobRecord J)
  upsert_found ops t now d payload r =
      if not (same_dispatch_identity ops r.dispatch d)
      then (t, err (dispatch_conflict d.job_id))
      else (if not (is_terminal r.state)
          then (
            update_where (λ row. row.job_id =ˢ d.job_id)
                (λ row. record row { dispatch_json = payload; updated_at = now }) t,
            ok (record r { dispatch = d }),
          )
          else (t, ok r))

  unfoldable pub upsert_dispatch : JsonOps J → Table → I64 → DispatchJob J → Reply (JobRecord J)
  unfolding upsert_found received_row
  upsert_dispatch ops t now d = elim (codec.dispatch.to_string d) [
    | none ↦ (t, err serialization)
    | some payload ↦ elim (find d.job_id t) [
      | none ↦ (insert_row (received_row d payload now) t, ok (new_received d))
      | some row ↦ elim (decode_job codec row) [
        | err e ↦ (t, err e)
        | ok r ↦ upsert_found ops t now d payload r
      ]
    ]
  ]

  unfoldable pub get_job : Table → String → Result JournalError (Option (JobRecord J))
  get_job t job_id = elim (find job_id t) [
    | none ↦ ok none
    | some row ↦ do r ← decode_job codec row; ok (some r)
  ]

unfoldable pub set_job_state : Table → I64 → String → JobState → Reply (Unit {0})
set_job_state t now job_id next = elim (find job_id t) [
  | none ↦ (t, err (not_found job_id))
  | some row ↦ elim (parse_state row.state) [
    | err e ↦ (t, err e)
    | ok current ↦
        if not (can_transition_to current next)
        then (t, err (invalid_transition current next))
        else (
          update_where (λ row. row.job_id =ˢ job_id)
              (λ row. record row { state = state_str next; updated_at = now }) t,
          ok tt,
        )
  ]
]

unfoldable pub set_prompt_id : Table → I64 → String → String → Reply (Unit {0})
unfolding ensure_updated
set_prompt_id t now job_id prompt_id = (
  update_where (λ row. row.job_id =ˢ job_id)
      (λ row. record row { prompt_id = some prompt_id; updated_at = now }) t,
  ensure_updated job_id (rows_affected (λ row. row.job_id =ˢ job_id) t),
)

-- What `UPDATE … SET state = ?, event_sequence = ?, pending_event_json = ?` leaves of a row; with no
-- state asked for, the statement has no `state = ?`.
unfoldable pub event_row : Option JobState → ℕ → String → I64 → Row → Row
unfolding to_i64
event_row none n payload now row = record row {
  event_sequence = to_i64 n;
  pending_event_json = some payload;
  updated_at = now;
}
event_row (some next) n payload now row = record row {
  state = state_str next;
  event_sequence = to_i64 n;
  pending_event_json = some payload;
  updated_at = now;
}

unfoldable pub check_transition : JobState → Option JobState → Result JournalError (Unit {0})
check_transition current none = ok tt
check_transition current (some next) =
    if not (can_transition_to current next) then err (invalid_transition current next) else ok tt

module _ {J : Type 0} (codec : Codec J) where
  -- The checks, before the row is written: its payload, or the error.
  unfoldable pub check_event : Table → JobEvent → Option JobState → Result JournalError String
  unfolding check_transition
  check_event t event state = do
    row ← ok_or (find event.job_id t) (not_found event.job_id)
    current ← decode_event_head codec row
    _ ← validate_event_sequence current.event_sequence current.pending_event event
    payload ← ok_or (codec.event.to_string event) serialization
    _ ← check_transition current.state state
    ok payload

  unfoldable pub set_pending_event : Table → I64 → JobEvent → Option JobState → Reply (Unit {0})
  unfolding check_event event_row ensure_updated
  set_pending_event t now event state = elim (check_event t event state) [
    | err e ↦ (t, err e)
    | ok payload ↦
        elim (ensure_updated event.job_id (rows_affected (λ row. row.job_id =ˢ event.job_id) t)) [
          | err e ↦ (t, err e)
          | ok _ ↦ (
            update_where (λ row. row.job_id =ˢ event.job_id)
                (event_row state event.sequence payload now) t,
            ok tt,
          )
        ]
  ]

-- `UPDATE … SET pending_event_json = NULL … WHERE job_id = ? AND event_sequence = ?`.
unfoldable pub clear_pending_event : Table → I64 → String → ℕ → Reply (Unit {0})
unfolding i64_eq to_i64
clear_pending_event t now job_id sequence = (
  update_where (λ row. row.job_id =ˢ job_id && i64_eq row.event_sequence (to_i64 sequence))
      (λ row. record row { pending_event_json = none; updated_at = now }) t,
  ok tt,
)

-- `state NOT IN ('completed', 'failed', 'cancelled') OR pending_event_json IS NOT NULL`.
unfoldable pub unfinished_row : Row → Bool
unfinished_row row =
    not (row.state =ˢ "completed" || row.state =ˢ "failed" || row.state =ˢ "cancelled")
    || is_some row.pending_event_json

i64_le : I64 → I64 → Bool
i64_le (pos m) (pos n) = leb m n
i64_le (pos m) (negsuc n) = false
i64_le (negsuc m) (pos n) = true
i64_le (negsuc m) (negsuc n) = leb n m

insert_by_age : Row → List Row → List Row
unfolding i64_le
insert_by_age row [] = row ∷ []
insert_by_age row (r ∷ rs) =
    let later = insert_by_age row rs in
    if i64_le row.updated_at r.updated_at then row ∷ r ∷ rs else r ∷ later

-- `ORDER BY updated_at ASC`; rows of one time keep their order in the table.
order_by_updated_at : List Row → List Row
unfolding insert_by_age
order_by_updated_at [] = []
order_by_updated_at (row ∷ rows) = insert_by_age row (order_by_updated_at rows)

error_of : {A : Type 0} → Result JournalError A → Option JournalError
error_of (ok a) = none
error_of (err e) = some e

module _ {J : Type 0} (codec : Codec J) where
  -- `rows.into_iter().map(decode_job).collect()`: the first row that does not decode ends it.
  collect_jobs : List Row → Result JournalError (List (JobRecord J))
  collect_jobs [] = ok []
  collect_jobs (row ∷ rows) = do r ← decode_job codec row; rs ← collect_jobs rows; ok (r ∷ rs)

  unfoldable pub list_unfinished : Table → Result JournalError (List (JobRecord J))
  unfolding unfinished_row order_by_updated_at collect_jobs
  list_unfinished t = collect_jobs (order_by_updated_at (retain unfinished_row t))

  -- One request that changes the journal, at the time `now`.
  unfoldable pub handle : JsonOps J → Table → I64 → Request J → Table × Option JournalError
  unfolding error_of upsert_dispatch set_job_state set_prompt_id set_pending_event
      clear_pending_event
  handle ops t now (upsert d) = let (t', r) = upsert_dispatch codec ops t now d in (t', error_of r)
  handle ops t now (set_state k s) = let (t', r) = set_job_state t now k s in (t', error_of r)
  handle ops t now (set_prompt k p) = let (t', r) = set_prompt_id t now k p in (t', error_of r)
  handle ops t now (set_pending e s) =
      let (t', r) = set_pending_event codec t now e s in (t', error_of r)
  handle ops t now (clear_pending k n) =
      let (t', r) = clear_pending_event t now k n in (t', error_of r)
