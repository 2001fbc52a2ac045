-- ===== src/Journal/Sqlite/Events.antt =====
-- `SetPendingEvent` of crates/nagisalake-journal/src/sqlite.rs: its checks, and the row it writes.
use nagisa_lake.Prelude.{
  ℕ, ◌^◌, ◌<◌, ◌≡◌, refl, String, Option, none, some, arith, ok, err, if◌then◌else◌, lt→ltb,
}
use nagisa_lake.Protocol.Messages.{JobEvent, I64, pos}
use nagisa_lake.Core.{JobState, JobRecord}
use nagisa_lake.Journal.State.{validate_event_sequence, stale_event_sequence, invalid_transition}
use nagisa_lake.Journal.Spec.{stale, allowed, or_same}
use nagisa_lake.Journal.Sqlite.WorkerJobs.{Row, Table, find}
use nagisa_lake.Journal.Sqlite.Represents.{Represents, decode_event_head-Represents}
use nagisa_lake.Journal.Sqlite.Decode.{Codec, to_i64, decode_pending}
use nagisa_lake.Journal.Sqlite.{check_event, event_row, check_transition}

pub event_row-job_id :
    (s : Option JobState) (n : ℕ) (text : String) (now : I64) (row : Row)
    → (event_row s n text now row).job_id ≡ row.job_id
unfolding event_row
event_row-job_id none n text now row = refl
event_row-job_id (some u) n text now row = refl

pub to_i64_small : (n : ℕ) → n < 2 ^ 63 → to_i64 n ≡ pos n
unfolding to_i64
to_i64_small n h = rw (lt→ltb n (2 ^ 63) h)

module _ {J : Type 0} (codec : Codec J) where
  pub event_row-Represents :
      (s : Option JobState) (e : JobEvent) (text : String) (now : I64) (row : Row) (r : JobRecord J)
      → Represents codec row r
      → codec.event.from_str text ≡ some e
      → e.sequence < 2 ^ 63
      → Represents codec (event_row s e.sequence text now row) (record r {
        state = or_same r.state s;
        event_sequence = e.sequence;
        pending_event = some e;
      })
  unfolding event_row decode_pending
  event_row-Represents none e text now row r h read small = record {
    dispatched = h.dispatched;
    named = h.named;
    prompted = h.prompted;
    numbered = to_i64_small e.sequence small;
    pended = rw read refl;
  }
  event_row-Represents (some u) e text now row r h read small = record {
    dispatched = h.dispatched;
    named = refl;
    prompted = h.prompted;
    numbered = to_i64_small e.sequence small;
    pended = rw read refl;
  }

  pub check_event_lem :
      (t : Table) (s : Option JobState) (e : JobEvent) (text : String) (row : Row) (r : JobRecord J)
      → find e.job_id t ≡ some row
      → Represents codec row r
      → codec.event.to_string e ≡ some text
      → check_event codec t e s ≡ (
          if stale r e
          then err (stale_event_sequence r.event_sequence e.sequence)
          else (if allowed r.state s
              then ok text
              else err (invalid_transition r.state (or_same r.state s))))
  unfolding check_event validate_event_sequence stale allowed check_transition
  check_event_lem t none e text row r at h written =
      rw (at, decode_event_head-Represents codec row r h, written) (ground arith)
  check_event_lem t (some u) e text row r at h written =
      rw (at, decode_event_head-Represents codec row r h, written) (ground arith)
