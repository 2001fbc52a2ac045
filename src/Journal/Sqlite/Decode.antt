-- ===== src/Journal/Sqlite/Decode.antt =====
-- crates/nagisalake-journal/src/sqlite.rs: the values in the rows of the table, and their decoders.
use nagisa_lake.Prelude.{
  ℕ, ◌-◌, ◌^◌, ◌==◌, ltb, String, Bool, false, Option, none, some, if◌then◌else◌, Result, ok, ok_or,
  ◌>>=◌,
}
use nagisa_lake.Protocol.Messages.{DispatchJob, JobEvent, I64, pos, negsuc}
use nagisa_lake.Core.{JobState, JobRecord}
use nagisa_lake.Journal.State.{JournalError, serialization, parse_state}
use nagisa_lake.Journal.Sqlite.WorkerJobs.{Row}

-- `serde_json` at one type: a library outside the repository.
pub record Serde (A : Type 0) : Type 0 where
  pub to_string : A → Option String
  pub from_str : String → Option A

pub record Codec (J : Type 0) : Type 0 where
  pub dispatch : Serde (DispatchJob J)
  pub event : Serde JobEvent

-- `i64::try_from(n).unwrap_or(i64::MAX)`.
unfoldable pub to_i64 : ℕ → I64
to_i64 n = if ltb n (2 ^ 63) then pos n else pos (2 ^ 63 - 1)

-- `n.max(0) as u64`.
unfoldable pub to_u64 : I64 → ℕ
to_u64 (pos n) = n
to_u64 (negsuc n) = 0

unfoldable pub i64_eq : I64 → I64 → Bool
i64_eq (pos m) (pos n) = m == n
i64_eq (negsuc m) (negsuc n) = m == n
i64_eq _ _ = false

pub record EventHead : Type 0 where
  pub state : JobState
  pub event_sequence : ℕ
  pub pending_event : Option JobEvent

module _ {J : Type 0} (codec : Codec J) where
  unfoldable pub decode_pending : Option String → Result JournalError (Option JobEvent)
  decode_pending none = ok none
  decode_pending (some payload) = do
    e ← ok_or (codec.event.from_str payload) serialization
    ok (some e)

  unfoldable pub decode_job : Row → Result JournalError (JobRecord J)
  unfolding decode_pending to_u64
  decode_job row = do
    d ← ok_or (codec.dispatch.from_str row.dispatch_json) serialization
    s ← parse_state row.state
    p ← decode_pending row.pending_event_json
    ok (record {
      dispatch = d;
      state = s;
      prompt_id = row.prompt_id;
      event_sequence = to_u64 row.event_sequence;
      pending_event = p;
    })

  unfoldable pub decode_event_head : Row → Result JournalError EventHead
  unfolding decode_pending to_u64
  decode_event_head row = do
    s ← parse_state row.state
    p ← decode_pending row.pending_event_json
    ok (record { state = s; event_sequence = to_u64 row.event_sequence; pending_event = p })
