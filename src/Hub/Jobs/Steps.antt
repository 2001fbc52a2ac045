-- ===== src/Hub/Jobs/Steps.antt =====
-- What a call of `apply_job_event` (apps/nagisalake-hub/src/hub/worker.rs) does to the resident jobs,
-- for any relation that holds of each single write.
use nagisa_lake.Prelude.{
  ℕ, ◌≡◌, subst, String, Bool, true, false, Option, none, some, if◌then◌else◌, if_both, ltb, ◌=ˢ◌,
  get, put, get-put, get-remove, eq_iff, arith, Bool-cases, Option-cases, Result-cases, inl, inr,
  ok,
}
use nagisa_lake.Protocol.Messages.{I64, JobEvent}
use nagisa_lake.Core.{is_terminal}
use nagisa_lake.Hub.Jobs.{
  HubError, JobView, JobRecord, HubData, forget_job, update_job, matches_snapshot, same_id,
}
use nagisa_lake.Hub.Jobs.Events.{
  StoredJob, Answers, Verdict, judge, merged, commit_event, merge_adopted_job_session,
  adopt_durable, reconcile_stored, reconcile_persisted_job_event, reconciled, adopt_only,
  apply_verdict, owned, apply_job_event, to_sequence,
}
use nagisa_lake.Hub.Jobs.Names.{parse_job_state}

module _ {J : Type 0} (R : JobRecord J → JobRecord J → Type 0) where
  -- Every job that is resident afterwards was resident before, and is related to what it was.
  unfoldable pub Related : HubData J → HubData J → Type 0
  Related d d' =
      (k : String) (c' : JobRecord J)
      → get k d'.jobs ≡ some c'
      → (c : JobRecord J) × (get k d.jobs ≡ some c) × R c c'

module _ {J : Type 0} (R : JobRecord J → JobRecord J → Type 0)
    (R_refl : (c : JobRecord J) → R c c) where
  Related-refl : (d : HubData J) → Related R d d
  unfolding Related
  Related-refl d k c' e = (c', e, R_refl c')

  Related-forget_job : (k : String) (d : HubData J) → Related R d (forget_job k d)
  unfolding Related forget_job
  Related-forget_job k d j c' e = (c', ground (arith, get-remove k j d.jobs), R_refl c')

  pub Related-update_job :
      (k : String) (f : JobRecord J → JobRecord J) (d : HubData J)
      → ((c : JobRecord J) → get k d.jobs ≡ some c → R c (f c))
      → Related R d (update_job k f d)
  unfolding Related update_job
  Related-update_job k f d h j c' e = elim (Option-cases (get k d.jobs)) [
    | inl absent ↦ (c', rw (absent, update_job) at e, R_refl c')
    | inr (c, there) ↦
        let e' : get j (put k (f c) d.jobs) ≡ some c' = rw (there, update_job) at e in
        elim (Bool-cases (k =ˢ j)) [
          | inl hit ↦
              let same : f c ≡ c' = ground (arith, get-put k j (f c) d.jobs) in
              (
                c,
                subst (λ i. get i d.jobs ≡ some c) ((eq_iff k j).0 hit) there,
                subst (R c) same (h c there),
              )
          | inr miss ↦ (c', ground (arith, get-put k j (f c) d.jobs), R_refl c')
        ]
  ]

  module _ (store : Option (Answers J)) (guarded : Bool) (now : I64) (session_id : String)
      (event : JobEvent)
      (by_event : (snapshot : JobRecord J) (verdict : Verdict)
        → judge snapshot event ≡ ok verdict
        → verdict.apply_event ≡ true
        → (c : JobRecord J) → matches_snapshot snapshot c ≡ true
        → R c (merged snapshot event verdict.append_event guarded now session_id c))
      (by_session : (attempt : ℕ) (c : JobRecord J)
        → R c (merge_adopted_job_session attempt session_id now c))
      (by_store : (answers : Answers J) (stored : StoredJob J) (view : JobView J) (last : ℕ)
        → store ≡ some answers
        → answers.job ≡ ok (some stored)
        → to_sequence stored.last_event ≡ ok last
        → stored.durable ≡ ok view
        → (c : JobRecord J) → R c (adopt_durable last view c)) where
    Related-reconcile_stored :
        (answers : Answers J) (stored : StoredJob J) (later : HubData J)
        → store ≡ some answers
        → answers.job ≡ ok (some stored)
        → Related R later (reconcile_stored answers event.job_id event.sequence later stored).0
    unfolding reconcile_stored
    Related-reconcile_stored answers stored later s e =
        elim (Result-cases (parse_job_state stored.state)) [
          | inr (x, p) ↦ rw (p, reconcile_stored) (Related-refl later)
          | inl (state, p) ↦
              rw (p, reconcile_stored)
                (elim (Result-cases (to_sequence stored.last_event)) [
                  | inr (x, q) ↦ rw q (Related-refl later)
                  | inl (last, q) ↦ rw q (elim (Bool-cases (is_terminal state)) [
                    | inl ended ↦ rw ended (elim (Result-cases answers.released) [
                      | inr (x, r) ↦ rw r (Related-refl later)
                      | inl (u, r) ↦ rw r (Related-forget_job event.job_id later)
                    ])
                    | inr open' ↦ rw open' (elim (Bool-cases (ltb last event.sequence)) [
                      | inl behind ↦ rw behind (Related-refl later)
                      | inr ahead ↦ rw ahead (elim (Result-cases stored.durable) [
                        | inr (x, r) ↦ rw r (Related-refl later)
                        | inl (view, r) ↦ rw r (
                            Related-update_job event.job_id (adopt_durable last view) later
                              (λ c held. by_store answers stored view last s e q r c))
                      ])
                    ])
                  ])
                ])
        ]

    Related-reconcile_persisted :
        (answers : Answers J) (later : HubData J)
        → store ≡ some answers
        → Related R later
            (reconcile_persisted_job_event answers event.job_id event.sequence later).0
    unfolding reconcile_persisted_job_event
    Related-reconcile_persisted answers later s = elim (Result-cases answers.job) [
      | inr (x, p) ↦ rw (p, reconcile_persisted_job_event) (Related-refl later)
      | inl (none, p) ↦ rw (p, reconcile_persisted_job_event) (Related-refl later)
      | inl (some stored, p) ↦
          rw (p, reconcile_persisted_job_event) (Related-reconcile_stored answers stored later s p)
    ]

    Related-reconciled :
        (answers : Answers J) (otherwise : HubError) (later : HubData J)
        → store ≡ some answers
        → Related R later (reconciled store guarded now session_id event answers otherwise later).0
    unfolding reconciled
    Related-reconciled answers otherwise later s =
        let kept = Related-reconcile_persisted answers later s in
        elim (Result-cases
          (reconcile_persisted_job_event answers event.job_id event.sequence later).1) [
            | inr (x, p) ↦ rw (p, reconciled) kept
            | inl (true, p) ↦ rw (p, reconciled) kept
            | inl (false, p) ↦ rw (p, reconciled) kept
          ]

    Related-adopt_only :
        (snapshot : JobRecord J) (later : HubData J)
        → Related R later (adopt_only store guarded now session_id event snapshot later).0
    unfolding adopt_only
    Related-adopt_only snapshot later = elim (Bool-cases (snapshot.view.session_id =ˢ session_id)) [
      | inl same ↦ rw same (Related-refl later)
      | inr other ↦ rw other (elim (Option-cases store) [
        | inl e ↦ rw (e, adopt_only) adopted
        | inr (answers, e) ↦
            rw (e, adopt_only)
              (elim (Result-cases answers.rebound) [
                | inr (x, r) ↦ rw r (Related-refl later)
                | inl (true, r) ↦ rw r adopted
                | inl (false, r) ↦ rw r (Related-refl later)
              ])
      ])
    ]
      where
        adopted : Related R later (
            if guarded
            then update_job event.job_id
                (merge_adopted_job_session snapshot.dispatch.attempt session_id now)
                later
            else later)
        adopted =
            if_both (Related R later) guarded _ _
              (Related-update_job event.job_id
                (merge_adopted_job_session snapshot.dispatch.attempt session_id now) later
                (λ c held. by_session snapshot.dispatch.attempt c))
              (Related-refl later)

    Related-commit_event :
        (has_store : Bool) (snapshot : JobRecord J) (verdict : Verdict) (later : HubData J)
        → judge snapshot event ≡ ok verdict
        → verdict.apply_event ≡ true
        → Related R later (
            commit_event snapshot event has_store verdict.append_event guarded now session_id later)
    unfolding commit_event
    Related-commit_event has_store snapshot verdict later j a =
        elim (Option-cases (get event.job_id later.jobs)) [
          | inl absent ↦ rw (absent, commit_event) (Related-refl later)
          | inr (c, there) ↦
              rw (there, commit_event)
                (elim (Bool-cases (matches_snapshot snapshot c)) [
                  | inr differs ↦ rw differs (Related-refl later)
                  | inl same ↦ rw same (
                      if_both (Related R later) _ _ _ (Related-forget_job event.job_id later) (
                        Related-update_job event.job_id _ later (λ c' held.
                          let e : c ≡ c' = ground arith in
                          by_event snapshot verdict j a c'
                            (subst (λ x. matches_snapshot snapshot x ≡ true) e same))))
                ])
        ]

    Related-apply_verdict :
        (snapshot : JobRecord J) (verdict : Verdict) (later : HubData J)
        → judge snapshot event ≡ ok verdict
        → Related R later
            (apply_verdict store guarded now session_id event snapshot verdict later).0
    unfolding apply_verdict
    Related-apply_verdict snapshot verdict later j = elim (Bool-cases verdict.apply_event) [
      | inr skipped ↦ rw (skipped, apply_verdict) (Related-adopt_only snapshot later)
      | inl applied ↦
          rw (applied, apply_verdict)
            (elim (Option-cases store) [
              | inl e ↦
                  rw (e, apply_verdict)
                    (Related-commit_event false snapshot verdict later j applied)
              | inr (answers, e) ↦
                  rw (e, apply_verdict)
                    (elim (Result-cases answers.applied) [
                      | inr (x, r) ↦ rw r (Related-refl later)
                      | inl (true, r) ↦
                          rw r (Related-commit_event true snapshot verdict later j applied)
                      | inl (false, r) ↦ rw r (Related-reconciled answers _ later e)
                    ])
            ])
    ]

    -- The jobs after a call are related to those that were resident when the write lock was taken.
    pub Related-apply_job_event :
        (current_session : Option String) (organization_id worker_id : String)
        (seen later : HubData J)
        → Related R later
            (apply_job_event store guarded now session_id event current_session organization_id
              worker_id seen later).0
    unfolding apply_job_event
    Related-apply_job_event current_session o w seen later =
        elim (Option-cases (get event.job_id seen.jobs)) [
          | inl absent ↦
              rw (absent, apply_job_event)
                (elim (Option-cases store) [
                  | inl e ↦ rw (e, apply_job_event) (Related-refl later)
                  | inr (answers, e) ↦
                      rw (e, apply_job_event) (Related-reconciled answers _ later e)
                ])
          | inr (snapshot, there) ↦
              rw (there, apply_job_event)
                (elim (Bool-cases (owned event o w snapshot)) [
                  | inr foreign' ↦ rw foreign' (Related-refl later)
                  | inl mine ↦
                      rw mine (elim (Bool-cases (same_id current_session (some session_id))) [
                        | inr stale ↦ rw stale (Related-refl later)
                        | inl fresh ↦ rw fresh (elim (Result-cases (judge snapshot event)) [
                          | inr (x, j) ↦ rw j (Related-refl later)
                          | inl (verdict, j) ↦ rw j (Related-apply_verdict snapshot verdict later j)
                        ])
                      ])
                ])
        ]
