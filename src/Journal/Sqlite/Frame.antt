-- ===== src/Journal/Sqlite/Frame.antt =====
-- A request to crates/nagisalake-journal/src/sqlite.rs leaves the rows of every other job alone.
use nagisa_lake.Prelude.{
  ◌≡◌, refl, String, false, Option, none, some, arith, Option-cases, inl, inr, ◌=ˢ◌, Result-cases,
}
use nagisa_lake.Protocol.Json.{JsonOps}
use nagisa_lake.Protocol.Messages.{I64, DispatchJob}
use nagisa_lake.Journal.State.{state_str}
use nagisa_lake.Journal.Spec.{
  Request, upsert, set_state, set_prompt, set_pending, clear_pending, target,
}
use nagisa_lake.Journal.Sqlite.WorkerJobs.{
  Row, Table, find, find-insert_row, find-update_other, find-update_else, or_else,
}
use nagisa_lake.Journal.Sqlite.Events.{event_row-job_id}
use nagisa_lake.Journal.Sqlite.Decode.{Codec, i64_eq, to_i64}
use nagisa_lake.Journal.Sqlite.{handle, received_row, event_row, check_event}

module _ {J : Type 0} (ops : JsonOps J) (codec : Codec J) (t : Table) (now : I64) where
  upsert-find :
      (d : DispatchJob J) (k : String)
      → (d.job_id =ˢ k) ≡ false
      → find k (handle codec ops t now (upsert d)).0 ≡ find k t
  unfolding handle
  upsert-find d k h = elim (Option-cases (codec.dispatch.to_string d)) [
    | inl e ↦ ground arith
    | inr (text, e) ↦ elim (Option-cases (find d.job_id t)) [
      | inl new ↦
          ground
            (arith, find-insert_row k (received_row codec d text now) t, or_else-none (find k t))
      | inr (row, old) ↦ ground (
        arith,
        find-update_else (λ row. record row { dispatch_json = text; updated_at = now })
            (λ row. refl) t d.job_id k h,
      )
    ]
  ]
    where
      or_else-none : (o : Option Row) → or_else o none ≡ o
      or_else-none none = refl
      or_else-none (some row) = refl

  pub handle-find :
      (q : Request J) (k : String)
      → (target q =ˢ k) ≡ false
      → find k (handle codec ops t now q).0 ≡ find k t
  unfolding handle
  handle-find (upsert d) k h = upsert-find d k h
  handle-find (set_state j s) k h = ground (
    arith,
    find-update_else (λ row. record row { state = state_str s; updated_at = now }) (λ row. refl) t j
        k h,
  )
  handle-find (set_prompt j p) k h =
      find-update_else (λ row. record row { prompt_id = some p; updated_at = now }) (λ row. refl) t
        j k h
  handle-find (set_pending e s) k h = elim (Result-cases (check_event codec t e s)) [
    | inl (text, c) ↦ ground (
      arith,
      find-update_else (event_row s e.sequence text now) (event_row-job_id s e.sequence text now) t
          e.job_id k h,
    )
    | inr (x, c) ↦ ground arith
  ]
  handle-find (clear_pending j n) k h =
      find-update_other (λ row. record row { pending_event_json = none; updated_at = now })
        (λ row. refl) t (λ row. i64_eq row.event_sequence (to_i64 n)) j k h
