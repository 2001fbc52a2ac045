-- ===== src/Hub/Jobs/Cancelled.antt =====
-- A cancellation of apps/nagisalake-hub/src/hub/jobs.rs that succeeds has ended the job, and one that
-- fails has changed nothing.
use nagisa_lake.Prelude.{
  ◌≢◌, eq_iff, ◌≡◌, refl, subst, String, Bool, true, false, Option, none, some, if◌then◌else◌,
  =ˢ_refl, get, put, remove, get-put, get-remove, Result, ok, err, arith, Bool-cases, Option-cases,
  inl, inr,
}
use nagisa_lake.Protocol.Messages.{I64}
use nagisa_lake.Core.{cancelled, is_terminal}
use nagisa_lake.Hub.Jobs.{HubError, JobView, JobRecord, HubData, matches_snapshot}
use nagisa_lake.Hub.Jobs.Cancel.{cancelled_view, commit_cancellation, cancel_job_locally}

module _ {J : Type 0} where
  pub record IsOutcome (job_id : String) (snapshot : JobRecord J) (later : HubData J)
      (r : HubData J × Result HubError (JobView J)) : Type 0 where
    pub ended : (view : JobView J) → r.1 ≡ ok view → view.state ≡ cancelled
    pub resident :
        (view : JobView J) (c : JobRecord J)
        → r.1 ≡ ok view
        → get job_id r.0.jobs ≡ some c
        → c.view.state ≡ cancelled
    pub unraced :
        (view : JobView J)
        → r.1 ≡ ok view
        → (job : JobRecord J) × (get job_id later.jobs ≡ some job)
          × (matches_snapshot snapshot job ≡ true)
    pub others : (k : String) → k ≢ job_id → get k r.0.jobs ≡ get k later.jobs
    pub quiet : (e : HubError) → r.1 ≡ err e → r.0 ≡ later

  failing :
      (job_id : String) (snapshot : JobRecord J) (later : HubData J) (e : HubError)
      → IsOutcome job_id snapshot later (later, err e)
  failing job_id snapshot later e = record {
    ended = λ view h. absurd (ground arith);
    resident = λ view c h g. absurd (ground arith);
    unraced = λ view h. absurd (ground arith);
    others = λ k differs. refl;
    quiet = λ x h. refl;
  }

  state-cancelled_view :
      (message : String) (now : I64) (view : JobView J)
      → (cancelled_view message now view).state ≡ cancelled
  unfolding cancelled_view
  state-cancelled_view message now view = refl

  committed :
      (has_store : Bool) (message job_id : String) (now : I64) (job : JobRecord J)
      (snapshot : JobRecord J) (later : HubData J)
      → get job_id later.jobs ≡ some job
      → matches_snapshot snapshot job ≡ true
      → IsOutcome job_id snapshot later (
        if has_store then record later { jobs = remove job_id later.jobs } else record later {
          jobs = put job_id (record job { view = cancelled_view message now job.view }) later.jobs;
        },
        ok (cancelled_view message now job.view),
      )
  committed has_store message job_id now job snapshot later there same = record {
    ended = λ view h.
        let same : cancelled_view message now job.view ≡ view = ground arith in
        subst (λ v. v.state ≡ cancelled) same (state-cancelled_view message now job.view);
    resident = λ view c h g. elim (Bool-cases has_store) [
      | inl stored ↦
          let g' : get job_id (remove job_id later.jobs) ≡ some c = rw stored at g in
          absurd (ground (arith, get-remove job_id job_id later.jobs, =ˢ_refl job_id))
      | inr memory ↦
          let new : JobRecord J = record job { view = cancelled_view message now job.view } in
          let g' : get job_id (put job_id new later.jobs) ≡ some c = rw memory at g in
          let same : new ≡ c =
            ground (arith, get-put job_id job_id new later.jobs, =ˢ_refl job_id) in
          subst (λ x. x.view.state ≡ cancelled) same (state-cancelled_view message now job.view)
    ];
    unraced = λ view h. (job, there, same);
    others = λ k differs. elim (Bool-cases has_store) [
      | inl stored ↦ rw stored (ground (arith, get-remove job_id k later.jobs, eq_iff job_id k))
      | inr memory ↦
          let new : JobRecord J = record job { view = cancelled_view message now job.view } in
          rw memory (ground (arith, get-put job_id k new later.jobs, eq_iff job_id k))
    ];
    quiet = λ e h. absurd (ground arith);
  }

  IsOutcome-commit_cancellation :
      (has_store : Bool) (now : I64) (message job_id : String) (snapshot : JobRecord J)
      (later : HubData J)
      → IsOutcome job_id snapshot later
          (commit_cancellation has_store now message job_id snapshot later)
  unfolding commit_cancellation
  IsOutcome-commit_cancellation has_store now message job_id snapshot later =
      elim (Option-cases (get job_id later.jobs)) [
        | inl absent ↦ rw (absent, commit_cancellation) (failing job_id snapshot later _)
        | inr (job, there) ↦
            rw (there, commit_cancellation)
              (elim (Bool-cases (matches_snapshot snapshot job)) [
                | inr differs ↦ rw differs (failing job_id snapshot later _)
                | inl same ↦
                    rw same (committed has_store message job_id now job snapshot later there same)
              ])
      ]

  -- Whatever happened to the jobs between the two locks: if a cancellation of a job that had not
  -- ended succeeds, then the job is still resident when the write lock is taken, with the attempt,
  -- the state and the last event that were read, the answer is a cancelled job, and the job is
  -- cancelled in memory or no longer there; if it fails, then the jobs are what they were when the
  -- write lock was taken. No other job changes.
  pub cancel_job_locally-IsOutcome :
      (store : Option (Result HubError Bool)) (now : I64) (job_id : String) (seen later : HubData J)
      (c : JobRecord J)
      → get job_id seen.jobs ≡ some c
      → is_terminal c.view.state ≡ false
      → IsOutcome job_id c later (cancel_job_locally store now job_id seen later)
  unfolding cancel_job_locally
  cancel_job_locally-IsOutcome none now job_id seen later c there open' =
      rw (there, cancel_job_locally)
        (rw open' (IsOutcome-commit_cancellation false now _ job_id c later))
  cancel_job_locally-IsOutcome (some (err e)) now job_id seen later c there open' =
      rw (there, cancel_job_locally) (rw open' (failing job_id c later e))
  cancel_job_locally-IsOutcome (some (ok false)) now job_id seen later c there open' =
      rw (there, cancel_job_locally) (rw open' (failing job_id c later _))
  cancel_job_locally-IsOutcome (some (ok true)) now job_id seen later c there open' =
      rw (there, cancel_job_locally)
        (rw open' (IsOutcome-commit_cancellation true now _ job_id c later))
