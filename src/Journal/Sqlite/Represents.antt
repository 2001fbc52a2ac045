-- ===== src/Journal/Sqlite/Represents.antt =====
-- When a row of the table stands for a record, and what the decoders make of such a row.
use nagisa_lake.Prelude.{◌^◌, ◌<◌, ◌≡◌, String, Option, none, some, ok}
use nagisa_lake.Protocol.Messages.{pos}
use nagisa_lake.Core.{JobRecord}
use nagisa_lake.Journal.State.{state_str}
use nagisa_lake.Journal.State.Names.{parse_state-state_str}
use nagisa_lake.Journal.Spec.{Request, upsert, set_state, set_prompt, set_pending, clear_pending}
use nagisa_lake.Journal.Sqlite.WorkerJobs.{Row}
use nagisa_lake.Journal.Sqlite.Decode.{Serde, Codec, decode_pending, decode_job, decode_event_head}

-- A value that `serde_json` writes as a text that it reads back.
abbrev pub Stored : {A : Type 0} → Serde A → A → Type 0
Stored s a = (text : String) × (s.to_string a ≡ some text) × (s.from_str text ≡ some a)

module _ {J : Type 0} (codec : Codec J) where
  pub record Represents (row : Row) (r : JobRecord J) : Type 0 where
    pub dispatched : codec.dispatch.from_str row.dispatch_json ≡ some r.dispatch
    pub named : row.state ≡ state_str r.state
    pub prompted : row.prompt_id ≡ r.prompt_id
    pub numbered : row.event_sequence ≡ pos r.event_sequence
    pub pended : decode_pending codec row.pending_event_json ≡ ok r.pending_event

  abbrev pub Agree : Option Row → Option (JobRecord J) → Type 0
  Agree none none = Unit {0}
  Agree none (some r) = ⊥
  Agree (some row) none = ⊥
  Agree (some row) (some r) = Represents row r

  -- What the table is asked to store: texts that read back, and numbers below 2^63.
  abbrev pub Storable : Request J → Type 0
  Storable (upsert d) = Stored codec.dispatch d
  Storable (set_state k s) = Unit {0}
  Storable (set_prompt k p) = Unit {0}
  Storable (set_pending e s) = Stored codec.event e × (e.sequence < 2 ^ 63)
  Storable (clear_pending k n) = n < 2 ^ 63

  pub decode_job-Represents :
      (row : Row) (r : JobRecord J) → Represents row r → decode_job codec row ≡ ok r
  unfolding decode_job
  decode_job-Represents row r h =
      rw (h.dispatched, h.named, parse_state-state_str, h.pended, h.numbered, h.prompted)

  pub decode_event_head-Represents :
      (row : Row) (r : JobRecord J)
      → Represents row r
      → decode_event_head codec row
        ≡ ok (record {
          state = r.state;
          event_sequence = r.event_sequence;
          pending_event = r.pending_event;
        })
  unfolding decode_event_head
  decode_event_head-Represents row r h = rw (h.named, parse_state-state_str, h.pended, h.numbered)
