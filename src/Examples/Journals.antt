-- ===== src/Examples/Journals.antt =====
-- The journals on concrete histories.
use nagisa_lake.Prelude.{ℕ, ◌≡◌, refl, none, some, List, [], ◌∷◌, ok, get, arith, insert, ◌=ˢ◌}
use nagisa_lake.Protocol.Messages.{I64, pos}
use nagisa_lake.Protocol.Equality.{event_eq_refl, finite_progress}
use nagisa_lake.Core.{new_received, running, completed, JobRecord, accepted}
use nagisa_lake.Journal.State.{validate_event_sequence}
use nagisa_lake.Journal.Spec.{
  Request, upsert, set_state, set_prompt, set_pending, clear_pending, target, job_run,
}
use nagisa_lake.Journal.Spec.Record.{RecordInv, Evolves}
use nagisa_lake.Journal.Spec.Outbox.{settles, StillCarries}
use nagisa_lake.Journal.Memory.{Records, run, handle, upsert_dispatch, set_pending_event}
use nagisa_lake.Journal.Memory
use nagisa_lake.Journal.Memory.Refinement.{run-refines-job_run}
use nagisa_lake.Journal.Memory.Histories.{run-RecordInv, run-Evolves, run-Carries}
use nagisa_lake.Journal.Sqlite
use nagisa_lake.Journal.Equivalence.{sqlite_run, memory_run, journals_agree}
use nagisa_lake.Examples.Values.{
  number_ops, text_codec, dispatch_of, event_of, job_record, waiting_record,
}

-- A job with a pending event that is replayed, a refused transition, and a missing job.
abbrev history : List (I64 × Request ℕ)
history =
    (pos 1, upsert (dispatch_of "job"))
    ∷ (pos 2, set_pending (event_of "hello") (some accepted))
    ∷ (pos 3, set_pending (event_of "hello") none)
    ∷ (pos 4, set_state "job" completed)
    ∷ (pos 5, set_prompt "other" "p")
    ∷ (pos 6, clear_pending "job" 4)
    ∷ []

journals_agree_example :
    ((sqlite_run number_ops text_codec [] history).1
      ≡ (memory_run number_ops text_codec [] history).1)
    × (Sqlite.get_job text_codec (sqlite_run number_ops text_codec [] history).0 "job"
        ≡ ok (Memory.get_job (memory_run number_ops text_codec [] history).0 "job"))
journals_agree_example = journals_agree number_ops text_codec history "job" (
  ("job", refl, refl),
  (
    (("hello", refl, refl), omega arith),
    ((("hello", refl, refl), omega arith), (tt, (tt, (omega arith, tt)))),
  ),
)

run-RecordInv_example : RecordInv "job" waiting_record
unfolding run handle upsert_dispatch set_pending_event get insert validate_event_sequence
    new_received
run-RecordInv_example =
    run-RecordInv number_ops (upsert (dispatch_of "job") ∷ set_pending (event_of "hello") none ∷ [])
      "job" waiting_record refl

run-Evolves_example :
    (s : JobRecord ℕ) × (get "job"
        (run number_ops (("job", job_record) ∷ []) (set_state "job" accepted ∷ []))
      ≡ some s)
    × Evolves number_ops job_record s
unfolding get
run-Evolves_example =
    run-Evolves number_ops (("job", job_record) ∷ []) (set_state "job" accepted ∷ []) "job"
      job_record refl

run-Carries_example : StillCarries (event_of "hello") (
    get "job" (
      run number_ops
        (("job", waiting_record) ∷ [])
        (set_state "job" accepted ∷ clear_pending "job" 3 ∷ clear_pending "other" 4 ∷ [])))
unfolding settles get finite_progress
run-Carries_example =
    run-Carries number_ops (("job", waiting_record) ∷ [])
      (set_state "job" accepted ∷ clear_pending "job" 3 ∷ clear_pending "other" 4 ∷ []) "job"
      waiting_record (event_of "hello") refl
      (event_of "hello", refl, refl, event_eq_refl (event_of "hello") refl) refl

run-refines-job_run_example :
    get "job" (run number_ops [] (upsert (dispatch_of "job") ∷ set_state "other" running ∷ []))
    ≡ job_run number_ops
        (λ q. target q =ˢ "job")
        (upsert (dispatch_of "job") ∷ set_state "other" running ∷ [])
        (get "job" [])
run-refines-job_run_example =
    run-refines-job_run number_ops [] (upsert (dispatch_of "job") ∷ set_state "other" running ∷ [])
      "job"
