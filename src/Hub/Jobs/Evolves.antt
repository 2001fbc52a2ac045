-- ===== src/Hub/Jobs/Evolves.antt =====
-- What an event of a Worker may change of a job: apps/nagisalake-hub/src/hub/worker.rs.
use nagisa_lake.Prelude.{
  ℕ, ◌≤◌, ◌<◌, ◌≡◌, ◌⊎◌, inl, inr, refl, String, Bool, true, false, not, ◌&&◌, ◌||◌, Option, some,
  if_both, ltb→lt, ltb, leb, ◌==◌, ok, arith, Bool-cases,
}
use nagisa_lake.Protocol.Messages.{I64, JobEvent}
use nagisa_lake.Core.{JobState}
use nagisa_lake.Hub.Jobs.{JobView, JobRecord, HubData, state_eq, matches_snapshot}
use nagisa_lake.Hub.Jobs.Events.{
  Answers, StoredJob, to_sequence, Verdict, can_move, next_state, judge, merged,
  merge_adopted_job_session, keeps_current, adopt_durable, apply_job_event,
}
use nagisa_lake.Hub.Jobs.Steps.{Related, Related-apply_job_event}

state_eq_sound : (s t : JobState) → state_eq s t ≡ true → s ≡ t
unfolding state_eq
state_eq_sound s t h = ground arith

free :
    (a b : ℕ) (same move : Bool)
    → ltb a b ≡ false
    → (ltb b a || ((a == b) && (same || not move))) ≡ false
    → move ≡ true
free a b same move h k = ground arith

module _ {J : Type 0} where
  -- The state and the last event are those of the row that the store has, which knows more events.
  pub record IsTaken (store : Option (Answers J)) (c c' : JobRecord J) : Type 0 where
    pub answers : Answers J
    pub asked : store ≡ some answers
    pub row : StoredJob J
    pub read : answers.job ≡ ok (some row)
    pub numbered : to_sequence row.last_event ≡ ok c'.last_event
    pub decoded : (view : JobView J) × (row.durable ≡ ok view) × (c'.view.state ≡ view.state)
    pub ahead : c.last_event < c'.last_event

  -- The job is of the same dispatch, Worker and tenant, knows no fewer events, and its state is the
  -- same, or one that a step leads to, or that of a row of the store that knows more events.
  pub record Evolves (store : Option (Answers J)) (c c' : JobRecord J) : Type 0 where
    pub same_dispatch : c'.dispatch ≡ c.dispatch
    pub same_tenant : c'.organization_id ≡ c.organization_id
    pub same_worker : c'.view.worker_id ≡ c.view.worker_id
    pub later : c.last_event ≤ c'.last_event
    pub moves :
        (c'.view.state ≡ c.view.state)
        ⊎ (can_move c.view.state c'.view.state ≡ true)
        ⊎ IsTaken store c c'

  Evolves-refl : (store : Option (Answers J)) (c : JobRecord J) → Evolves store c c
  Evolves-refl store c = record {
    same_dispatch = refl;
    same_tenant = refl;
    same_worker = refl;
    later = omega arith;
    moves = inl refl;
  }

  -- What an applied event may rely on.
  pub judge-applied :
      (snapshot : JobRecord J) (event : JobEvent) (v : Verdict)
      → judge snapshot event ≡ ok v
      → v.apply_event ≡ true
      → (can_move snapshot.view.state (next_state event.kind) ≡ true)
        × ((v.append_event ≡ false) ⊎ (snapshot.last_event < event.sequence))
  unfolding judge
  judge-applied snapshot event v j a = elim (Bool-cases (leb event.sequence snapshot.last_event)) [
    | inl old ↦ let e = rw old at j in ground arith
    | inr new ↦ elim (Bool-cases (can_move snapshot.view.state (next_state event.kind))) [
      | inl move ↦ let e = rw (new, move) at j in ground arith
      | inr stuck ↦ let e = rw (new, stuck) at j in absurd (ground arith)
    ]
  ]

  pub matches_snapshot-same :
      (snapshot c : JobRecord J)
      → matches_snapshot snapshot c ≡ true
      → (c.view.state ≡ snapshot.view.state) × (c.last_event ≡ snapshot.last_event)
  unfolding matches_snapshot
  matches_snapshot-same snapshot c h =
      let states : state_eq c.view.state snapshot.view.state ≡ true = ground arith in
      (state_eq_sound c.view.state snapshot.view.state states, ground arith)

  Evolves-merged :
      (store : Option (Answers J)) (event : JobEvent) (guarded : Bool) (now : I64)
      (session_id : String) (snapshot : JobRecord J) (v : Verdict)
      → judge snapshot event ≡ ok v
      → v.apply_event ≡ true
      → (c : JobRecord J) → matches_snapshot snapshot c ≡ true
      → Evolves store c (merged snapshot event v.append_event guarded now session_id c)
  unfolding merged
  Evolves-merged store event guarded now session_id snapshot v j a c same =
      let (move, grows) = judge-applied snapshot event v j a in
      let (state, last) = matches_snapshot-same snapshot c same in
      record {
        same_dispatch = refl;
        same_tenant = refl;
        same_worker = refl;
        later = ground arith;
        moves = inr (inl (rw state move));
      }

  Evolves-adopted :
      (store : Option (Answers J)) (attempt : ℕ) (session_id : String) (now : I64) (c : JobRecord J)
      → Evolves store c (merge_adopted_job_session attempt session_id now c)
  unfolding merge_adopted_job_session
  Evolves-adopted store attempt session_id now c =
      if_both (Evolves store c) _ _ _ (Evolves-refl store c) (record {
        same_dispatch = refl;
        same_tenant = refl;
        same_worker = refl;
        later = omega arith;
        moves = inl refl;
      })

  -- The job is taken over from the row that the store has.
  Evolves-durable :
      (store : Option (Answers J)) (answers : Answers J) (stored : StoredJob J) (view : JobView J)
      (last : ℕ)
      → store ≡ some answers
      → answers.job ≡ ok (some stored)
      → to_sequence stored.last_event ≡ ok last
      → stored.durable ≡ ok view
      → (c : JobRecord J) → Evolves store c (adopt_durable last view c)
  unfolding adopt_durable keeps_current
  Evolves-durable store answers stored view last e f g h c =
      elim (Bool-cases (keeps_current last view.state c)) [
        | inl kept ↦ rw (kept, adopt_durable) (Evolves-refl store c)
        | inr taken ↦
            rw (taken, adopt_durable)
              (record {
                same_dispatch = refl;
                same_tenant = refl;
                same_worker = refl;
                later = ground arith;
                moves = elim (Bool-cases (ltb c.last_event last)) [
                  | inl ahead ↦ inr (
                      inr (record {
                        answers = answers;
                        asked = e;
                        row = stored;
                        read = f;
                        numbered = g;
                        decoded = (view, h, refl);
                        ahead = ltb→lt c.last_event last ahead;
                      }))
                  | inr level ↦ inr (
                      inl (
                        free c.last_event last (state_eq c.view.state view.state)
                          (can_move c.view.state view.state) level taken))
                ];
              })
      ]

  -- Whatever other tasks did to the jobs between the two locks of a call that takes in an event:
  -- each job that is resident after the call was resident when the write lock was taken, is of the
  -- same dispatch, Worker and tenant, knows no fewer events, and is in the same state, or in one that
  -- a transition or a forward recovery leads to, or its state and last event are those of the row
  -- that the store answered with, which knows more events.
  pub apply_job_event-Evolves :
      (store : Option (Answers J)) (guarded : Bool) (now : I64) (session_id : String)
      (event : JobEvent) (current_session : Option String) (organization_id worker_id : String)
      (seen later : HubData J)
      → Related
          (Evolves store)
          later
          (apply_job_event store guarded now session_id event current_session organization_id
            worker_id seen later).0
  apply_job_event-Evolves store guarded now session_id event =
      Related-apply_job_event (Evolves store) (Evolves-refl store) store guarded now session_id
        event (Evolves-merged store event guarded now session_id)
        (λ attempt c. Evolves-adopted store attempt session_id now c) (Evolves-durable store)
