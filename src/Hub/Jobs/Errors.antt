-- ===== src/Hub/Jobs/Errors.antt =====
-- An event that apps/nagisalake-hub/src/hub/worker.rs answers with an error has changed nothing.
use nagisa_lake.Prelude.{
  ℕ, ◌≡◌, ◌⊎◌, inl, inr, refl, String, Bool, true, false, Option, none, some, ltb, ◌=ˢ◌, get,
  Result, ok, err, arith, Bool-cases, Option-cases, Result-cases,
}
use nagisa_lake.Protocol.Messages.{I64, JobEvent, JobEventAck}
use nagisa_lake.Core.{is_terminal}
use nagisa_lake.Hub.Jobs.{HubError, JobRecord, HubData, same_id}
use nagisa_lake.Hub.Jobs.Events.{
  StoredJob, Answers, Verdict, judge, reconcile_stored, reconcile_persisted_job_event, reconciled,
  adopt_only, apply_verdict, owned, apply_job_event, to_sequence,
}
use nagisa_lake.Hub.Jobs.Names.{parse_job_state}

module _ {J : Type 0} where
  -- Only a reconciliation that succeeds changes the jobs.
  reconcile_stored-idle :
      (answers : Answers J) (job_id : String) (sequence : ℕ) (later : HubData J)
      (stored : StoredJob J)
      → ((reconcile_stored answers job_id sequence later stored).1 ≡ ok true)
        ⊎ ((reconcile_stored answers job_id sequence later stored).0 ≡ later)
  unfolding reconcile_stored
  reconcile_stored-idle answers job_id sequence later stored =
      elim (Result-cases (parse_job_state stored.state)) [
        | inr (x, p) ↦ rw (p, reconcile_stored) (inr refl)
        | inl (state, p) ↦
            rw (p, reconcile_stored)
              (elim (Result-cases (to_sequence stored.last_event)) [
                | inr (x, q) ↦ rw q (inr refl)
                | inl (last, q) ↦ rw q (elim (Bool-cases (is_terminal state)) [
                  | inl ended ↦ rw ended (elim (Result-cases answers.released) [
                    | inr (x, r) ↦ rw r (inr refl)
                    | inl (u, r) ↦ rw r (inl refl)
                  ])
                  | inr open' ↦ rw open' (elim (Bool-cases (ltb last sequence)) [
                    | inl behind ↦ rw behind (inr refl)
                    | inr ahead ↦ rw ahead (elim (Result-cases stored.durable) [
                      | inr (x, r) ↦ rw r (inr refl)
                      | inl (view, r) ↦ rw r (inl refl)
                    ])
                  ])
                ])
              ])
      ]

  reconcile-idle :
      (answers : Answers J) (job_id : String) (sequence : ℕ) (later : HubData J)
      → ((reconcile_persisted_job_event answers job_id sequence later).1 ≡ ok true)
        ⊎ ((reconcile_persisted_job_event answers job_id sequence later).0 ≡ later)
  unfolding reconcile_persisted_job_event
  reconcile-idle answers job_id sequence later = elim (Result-cases answers.job) [
    | inr (x, p) ↦ rw (p, reconcile_persisted_job_event) (inr refl)
    | inl (none, p) ↦ rw (p, reconcile_persisted_job_event) (inr refl)
    | inl (some stored, p) ↦
        rw (p, reconcile_persisted_job_event)
          (reconcile_stored-idle answers job_id sequence later stored)
  ]

  -- An answer with an error stands beside the jobs that were there.
  unfoldable Quiet : HubData J → HubData J × Result HubError JobEventAck → Type 0
  Quiet later r = (e : HubError) → r.1 ≡ err e → r.0 ≡ later

  Quiet-same : (later : HubData J) (a : Result HubError JobEventAck) → Quiet later (later, a)
  unfolding Quiet
  Quiet-same later a e h = refl

  Quiet-unmoved :
      (later d : HubData J) (a : Result HubError JobEventAck) → d ≡ later → Quiet later (d, a)
  unfolding Quiet
  Quiet-unmoved later d a same e h = same

  Quiet-ok : (later d : HubData J) (a : JobEventAck) → Quiet later (d, ok a)
  unfolding Quiet
  Quiet-ok later d a e h = absurd (ground arith)

  module _ (store : Option (Answers J)) (guarded : Bool) (now : I64) (session_id : String)
      (event : JobEvent) where
    Quiet-reconciled :
        (answers : Answers J) (otherwise : HubError) (later : HubData J)
        → Quiet later (reconciled store guarded now session_id event answers otherwise later)
    unfolding reconciled
    Quiet-reconciled answers otherwise later =
        elim (reconcile-idle answers event.job_id event.sequence later) [
          | inl done ↦ rw (done, reconciled) (Quiet-ok later _ _)
          | inr idle ↦
              elim (Result-cases
                (reconcile_persisted_job_event answers event.job_id event.sequence later).1) [
                  | inr (x, p) ↦ rw (p, reconciled) (Quiet-unmoved later _ _ idle)
                  | inl (true, p) ↦ rw (p, reconciled) (Quiet-unmoved later _ _ idle)
                  | inl (false, p) ↦ rw (p, reconciled) (Quiet-unmoved later _ _ idle)
                ]
        ]

    Quiet-adopt_only :
        (snapshot : JobRecord J) (later : HubData J)
        → Quiet later (adopt_only store guarded now session_id event snapshot later)
    unfolding adopt_only
    Quiet-adopt_only snapshot later = elim (Bool-cases (snapshot.view.session_id =ˢ session_id)) [
      | inl same ↦ rw same (Quiet-same later _)
      | inr other ↦ rw other (elim (Option-cases store) [
        | inl e ↦ rw (e, adopt_only) (Quiet-ok later _ _)
        | inr (answers, e) ↦
            rw (e, adopt_only)
              (elim (Result-cases answers.rebound) [
                | inr (x, r) ↦ rw r (Quiet-same later _)
                | inl (true, r) ↦ rw r (Quiet-ok later _ _)
                | inl (false, r) ↦ rw r (Quiet-same later _)
              ])
      ])
    ]

    Quiet-apply_verdict :
        (snapshot : JobRecord J) (verdict : Verdict) (later : HubData J)
        → Quiet later (apply_verdict store guarded now session_id event snapshot verdict later)
    unfolding apply_verdict
    Quiet-apply_verdict snapshot verdict later = elim (Bool-cases verdict.apply_event) [
      | inr skipped ↦ rw (skipped, apply_verdict) (Quiet-adopt_only snapshot later)
      | inl applied ↦
          rw (applied, apply_verdict)
            (elim (Option-cases store) [
              | inl e ↦ rw (e, apply_verdict) (Quiet-ok later _ _)
              | inr (answers, e) ↦
                  rw (e, apply_verdict)
                    (elim (Result-cases answers.applied) [
                      | inr (x, r) ↦ rw r (Quiet-same later _)
                      | inl (true, r) ↦ rw r (Quiet-ok later _ _)
                      | inl (false, r) ↦ rw r (Quiet-reconciled answers _ later)
                    ])
            ])
    ]

    -- If the event of a Worker is answered with an error, from wherever the error comes, then the
    -- jobs are what they were when the write lock was taken.
    pub apply_job_event-err :
        (current_session : Option String) (organization_id worker_id : String)
        (seen later : HubData J) (e : HubError)
        → (apply_job_event store guarded now session_id event current_session organization_id
            worker_id seen later).1
          ≡ err e
        → (apply_job_event store guarded now session_id event current_session organization_id
            worker_id seen later).0
          ≡ later
    unfolding apply_job_event Quiet
    apply_job_event-err current_session o w seen later =
        elim (Option-cases (get event.job_id seen.jobs)) [
          | inl absent ↦
              rw (absent, apply_job_event)
                (elim (Option-cases store) [
                  | inl e ↦ rw (e, apply_job_event) (Quiet-same later _)
                  | inr (answers, e) ↦ rw (e, apply_job_event) (Quiet-reconciled answers _ later)
                ])
          | inr (snapshot, there) ↦
              rw (there, apply_job_event)
                (elim (Bool-cases (owned event o w snapshot)) [
                  | inr foreign' ↦ rw foreign' (Quiet-same later _)
                  | inl mine ↦
                      rw mine (elim (Bool-cases (same_id current_session (some session_id))) [
                        | inr stale ↦ rw stale (Quiet-same later _)
                        | inl fresh ↦ rw fresh (elim (Result-cases (judge snapshot event)) [
                          | inr (x, j) ↦ rw j (Quiet-same later _)
                          | inl (verdict, j) ↦ rw j (Quiet-apply_verdict snapshot verdict later)
                        ])
                      ])
                ])
        ]
