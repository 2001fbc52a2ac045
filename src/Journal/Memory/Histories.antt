-- ===== src/Journal/Memory/Histories.antt =====
-- Whole histories of crates/nagisalake-journal/src/memory.rs, from what each job sees of them.
use nagisa_lake.Prelude.{
  ◌≡◌, sym, ◌∙◌, ap, String, none, some, any, ◌&&◌, false, List, [], get, eq_iff, ◌=ˢ◌, subst,
}
use nagisa_lake.Protocol.Json.{JsonOps}
use nagisa_lake.Core.{JobRecord}
use nagisa_lake.Journal.Spec.{Request, target, job_run}
use nagisa_lake.Journal.Spec.Record.{
  RecordInv, OptionInv, Evolves, job_run-OptionInv, job_run-Follows,
}
use nagisa_lake.Journal.Spec.Outbox.{settles, Carries, StillCarries, job_run-Carries}
use nagisa_lake.Protocol.Messages.{JobEvent}
use nagisa_lake.Journal.Memory.{Records, run}
use nagisa_lake.Journal.Memory.Refinement.{run-refines-job_run}

module _ {J : Type 0} (ops : JsonOps J) where
  -- After any history on an empty journal, every record stands under its own id, and its pending
  -- event is the job's newest event.
  pub run-RecordInv :
      (qs : List (Request J)) (k : String) (r : JobRecord J)
      → get k (run ops [] qs) ≡ some r
      → RecordInv k r
  unfolding get
  run-RecordInv qs k r e =
      subst (OptionInv k) (sym (run-refines-job_run ops [] qs k) ∙ e)
        (job_run-OptionInv ops k (λ q. target q =ˢ k) qs none (λ q h. (eq_iff (target q) k).0 h) tt)

  -- No history loses a job, moves its state other than along steps of the relation, takes its event sequence back, or
  -- changes the identity of its dispatch.
  pub run-Evolves :
      (m : Records J) (qs : List (Request J)) (k : String) (r : JobRecord J)
      → get k m ≡ some r
      → (s : JobRecord J) × (get k (run ops m qs) ≡ some s) × Evolves ops r s
  run-Evolves m qs k r e =
      let (s, p, h) = job_run-Follows ops (λ q. target q =ˢ k) qs r in
      (s, run-refines-job_run ops m qs k ∙ ap (job_run ops (λ q. target q =ˢ k) qs) e ∙ p, h)

  -- A pending event, or a replay equal to it, stays in its job's record through every history that
  -- neither acknowledges its sequence number nor brings a newer event of the job.
  pub run-Carries :
      (m : Records J) (qs : List (Request J)) (k : String) (r : JobRecord J) (e : JobEvent)
      → get k m ≡ some r
      → Carries e r
      → any (λ q. (target q =ˢ k) && settles e.sequence q) qs ≡ false
      → StillCarries e (get k (run ops m qs))
  run-Carries m qs k r e at c h =
      let (s, p, d) = job_run-Carries ops e (λ q. target q =ˢ k) qs r c h in
      (s, run-refines-job_run ops m qs k ∙ ap (job_run ops (λ q. target q =ˢ k) qs) at ∙ p, d)
