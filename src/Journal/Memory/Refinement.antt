-- ===== src/Journal/Memory/Refinement.antt =====
-- The map of crates/nagisalake-journal/src/memory.rs does to each job what `job_step` says.
use nagisa_lake.Prelude.{
  ◌≡◌, refl, ap, ◌∙◌, String, none, some, List, [], ◌∷◌, arith, get, get-insert, eq_iff,
  Option-cases, inl, inr, if◌then◌else◌, ◌=ˢ◌,
}
use nagisa_lake.Protocol.Json.{JsonOps}
use nagisa_lake.Core.{JobRecord, new_received}
use nagisa_lake.Journal.State.{validate_event_sequence}
use nagisa_lake.Journal.Spec.{
  Request, upsert, set_state, set_prompt, set_pending, clear_pending, target, job_step, job_run,
}
use nagisa_lake.Journal.Memory.{Records, handle, run}

module _ {J : Type 0} (ops : JsonOps J) (m : Records J) where
  handle-error : (q : Request J) → (handle ops m q).1 ≡ (job_step ops q (get (target q) m)).1
  unfolding handle job_step validate_event_sequence
  handle-error (upsert d) = elim (Option-cases (get d.job_id m)) [
    | inl e ↦ ground arith
    | inr (r, e) ↦ ground arith
  ]
  handle-error (set_state k s) = ground arith
  handle-error (set_prompt k p) = ground arith
  handle-error (set_pending e s) = ground arith
  handle-error (clear_pending k n) = ground arith

  -- A read of one's own key, whichever way the key is written.
  put_back :
      (t k : String) (r : JobRecord J)
      → get t m ≡ some r
      → get k m ≡ (if t =ˢ k then some r else get k m)
  put_back t k r e = ground (arith, eq_iff t k)

  missing : (t k : String) → get t m ≡ none → get k m ≡ (if t =ˢ k then none else get k m)
  missing t k e = ground (arith, eq_iff t k)

  handle-get :
      (q : Request J) (k : String)
      → get k (handle ops m q).0
        ≡ (if target q =ˢ k then (job_step ops q (get (target q) m)).0 else get k m)
  unfolding handle job_step validate_event_sequence
  handle-get (upsert d) k = elim (Option-cases (get d.job_id m)) [
    | inl e ↦ ground (arith, get-insert d.job_id k (new_received d) m)
    | inr (r, e) ↦
        ground (arith, put_back d.job_id k r e, get-insert d.job_id k (record r { dispatch = d }) m)
  ]
  handle-get (set_state t s) k = elim (Option-cases (get t m)) [
    | inl e ↦ ground (arith, missing t k e)
    | inr (r, e) ↦ ground (arith, put_back t k r e, get-insert t k (record r { state = s }) m)
  ]
  handle-get (set_prompt t p) k = elim (Option-cases (get t m)) [
    | inl e ↦ ground (arith, missing t k e)
    | inr (r, e) ↦ ground (arith, get-insert t k (record r { prompt_id = some p }) m)
  ]
  handle-get (set_pending ev none) k = elim (Option-cases (get ev.job_id m)) [
    | inl e ↦ ground (arith, missing ev.job_id k e)
    | inr (r, e) ↦ ground (
      arith,
      put_back ev.job_id k r e,
      get-insert ev.job_id k
          (record r { state = r.state; event_sequence = ev.sequence; pending_event = some ev }) m,
    )
  ]
  handle-get (set_pending ev (some next)) k = elim (Option-cases (get ev.job_id m)) [
    | inl e ↦ ground (arith, missing ev.job_id k e)
    | inr (r, e) ↦ ground (
      arith,
      put_back ev.job_id k r e,
      get-insert ev.job_id k
          (record r { state = next; event_sequence = ev.sequence; pending_event = some ev }) m,
    )
  ]
  handle-get (clear_pending t n) k = elim (Option-cases (get t m)) [
    | inl e ↦ ground (arith, missing t k e)
    | inr (r, e) ↦
        ground (arith, put_back t k r e, get-insert t k (record r { pending_event = none }) m)
  ]

  -- On the map a request does to its own job, and answers, what the specification says, and it
  -- leaves every other job alone.
  pub handle-refines-job_step :
      (q : Request J)
      → ((handle ops m q).1 ≡ (job_step ops q (get (target q) m)).1)
        × ((k : String)
            → get k (handle ops m q).0
              ≡ (if target q =ˢ k then (job_step ops q (get (target q) m)).0 else get k m))
  handle-refines-job_step q = (handle-error q, handle-get q)

-- Over a whole history, a job sees only its own requests.
pub run-refines-job_run :
    {J : Type 0} (ops : JsonOps J) (m : Records J) (qs : List (Request J)) (k : String)
    → get k (run ops m qs) ≡ job_run ops (λ q. target q =ˢ k) qs (get k m)
unfolding run job_run
run-refines-job_run ops m [] k = refl
run-refines-job_run ops m (q ∷ qs) k =
    run-refines-job_run ops (handle ops m q).0 qs k
    ∙ ap (job_run ops (λ q'. target q' =ˢ k) qs) (own_step ops m q k)
  where
    own_step :
        {J : Type 0} (ops : JsonOps J) (m : Records J) (q : Request J) (k : String)
        → get k (handle ops m q).0
          ≡ (if target q =ˢ k then (job_step ops q (get k m)).0 else get k m)
    own_step ops m q k = ground (arith, handle-get ops m q k, eq_iff (target q) k)
