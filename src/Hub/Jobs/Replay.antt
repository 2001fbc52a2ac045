-- ===== src/Hub/Jobs/Replay.antt =====
-- A Worker sends an event until it is acknowledged, so one event comes more than once:
-- apps/nagisalake-hub/src/hub/worker.rs without a store, where memory has the only copy of the jobs.
use nagisa_lake.Prelude.{
  ℕ, ◌≡◌, ◌⊎◌, inl, inr, refl, sym, ap, ◌∙◌, String, Bool, true, false, not, ◌&&◌, ◌||◌, Option,
  none, some, [], ◌∷◌, if◌then◌else◌, leb, ◌==◌, ◌=ˢ◌, =ˢ_refl, Dict, get, put, get-put, Result, ok,
  arith, Bool-cases, Option-cases, Result-cases, eq_iff, ==_iff,
}
use nagisa_lake.Protocol.Messages.{I64, JobEvent, JobEventAck}
use nagisa_lake.Core.{JobState, is_terminal}
use nagisa_lake.Hub.Jobs.{
  HubError, JobRecord, HubData, state_eq, same_id, update_job, matches_snapshot,
}
use nagisa_lake.Hub.Jobs.Events.{
  Verdict, judge, next_state, can_move, merged, commit_event, merge_adopted_job_session, adopt_only,
  apply_verdict, owned, apply_job_event, ack,
}
use nagisa_lake.Hub.Jobs.Evolves.{judge-applied}

state_eq_refl : (s : JobState) → state_eq s s ≡ true
unfolding state_eq
state_eq_refl s = ground arith

put-get : {V : Type 0} (k : String) (v : V) (m : Dict V) → get k m ≡ some v → put k v m ≡ m
unfolding put get
put-get k v [] h = cc
put-get k v ((j, w) ∷ m) h = elim (Bool-cases (j =ˢ k)) [
  | inl hit ↦
      let q : w ≡ v = ground arith in rw hit (λ i. ((sym ((eq_iff j k).0 hit)) i, (sym q) i) ∷ m)
  | inr miss ↦ rw miss (ap (λ n. (j, w) ∷ n) (put-get k v m (rw miss at h)))
]

never : {A : Type 0} (b : Bool) (x y : A) → (if b && false then x else y) ≡ y
never b x y = ground arith

module _ {J : Type 0} (guarded : Bool) (session_id : String) (event : JobEvent)
    (current_session : Option String) (organization_id worker_id : String) where
  abbrev call : I64 → HubData J → HubData J × Result HubError JobEventAck
  call now data' =
      apply_job_event none guarded now session_id event current_session organization_id worker_id
        data' data'

  get-update_job :
      (f : JobRecord J → JobRecord J) (d : HubData J) (c : JobRecord J)
      → get event.job_id d.jobs ≡ some c
      → get event.job_id (update_job event.job_id f d).jobs ≡ some (f c)
  unfolding update_job
  get-update_job f d c there =
      rw (there, update_job)
        (get-put event.job_id event.job_id (f c) d.jobs ∙ rw (=ˢ_refl event.job_id))

  -- A job that has taken the event in.
  record IsSettled (c : JobRecord J) : Type 0 where
    pub mine : owned event organization_id worker_id c ≡ true
    pub verdict : Verdict
    pub judged : judge c event ≡ ok verdict
    pub skipped : verdict.apply_event ≡ false
    pub bound :
        ((c.view.session_id =ˢ session_id) ≡ true)
        ⊎ (guarded ≡ false)
        ⊎ (is_terminal c.view.state ≡ true)

  update_job_same :
      (f : JobRecord J → JobRecord J) (d : HubData J) (c : JobRecord J)
      → get event.job_id d.jobs ≡ some c
      → f c ≡ c
      → update_job event.job_id f d ≡ d
  unfolding update_job
  update_job_same f d c there same =
      rw (there, update_job)
        (ap (λ m. record d { jobs = m })
          (ap (λ x. put event.job_id x d.jobs) same ∙ put-get event.job_id c d.jobs there))

  merge_ended :
      (attempt : ℕ) (now : I64) (c : JobRecord J)
      → is_terminal c.view.state ≡ true
      → merge_adopted_job_session attempt session_id now c ≡ c
  unfolding merge_adopted_job_session
  merge_ended attempt now c ended = ground arith

  adopting_again :
      (now : I64) (d : HubData J) (c : JobRecord J)
      → get event.job_id d.jobs ≡ some c
      → ((c.view.session_id =ˢ session_id) ≡ true)
        ⊎ (guarded ≡ false)
        ⊎ (is_terminal c.view.state ≡ true)
      → adopt_only none guarded now session_id event c d ≡ (d, ok (ack event))
  unfolding adopt_only
  adopting_again now d c there (inl same) = rw same
  adopting_again now d c there (inr (inl free)) = rw free (ground arith)
  adopting_again now d c there (inr (inr ended)) =
      let same =
        update_job_same (merge_adopted_job_session c.dispatch.attempt session_id now) d c there
          (merge_ended c.dispatch.attempt now c ended) in
      rw same (ground arith)

  settled_again :
      (now : I64) (d : HubData J) (c : JobRecord J)
      → get event.job_id d.jobs ≡ some c
      → same_id current_session (some session_id) ≡ true
      → IsSettled c
      → call now d ≡ (d, ok (ack event))
  unfolding apply_job_event
  settled_again now d c there fresh s =
      rw (there, s.mine, fresh, s.judged, apply_job_event)
        (rw (s.skipped, apply_verdict) (adopting_again now d c there s.bound))

  twice :
      (now later : I64) (d d' : HubData J)
      → call now d ≡ (d', ok (ack event))
      → call later d' ≡ (d', ok (ack event))
      → call later (call now d).0 ≡ ((call now d).0, ok (ack event))
  twice now later d d' first second = rw first second

  judge-old :
      (c : JobRecord J) (v : Verdict)
      → judge c event ≡ ok v
      → (v.append_event ≡ true) ⊎ (leb event.sequence c.last_event ≡ true)
  unfolding judge
  judge-old c v j = elim (Bool-cases (leb event.sequence c.last_event)) [
    | inl old ↦ inr old
    | inr new ↦ elim (Bool-cases (can_move c.view.state (next_state event.kind))) [
      | inl move ↦ let e = rw (new, move) at j in inl (ground arith)
      | inr stuck ↦ let e = rw (new, stuck) at j in absurd (ground arith)
    ]
  ]

  matches_snapshot_refl : (c : JobRecord J) → matches_snapshot c c ≡ true
  unfolding matches_snapshot
  matches_snapshot_refl c = ground (
    arith,
    state_eq_refl c.view.state,
    ==_iff c.dispatch.attempt c.dispatch.attempt,
    ==_iff c.last_event c.last_event,
  )

  IsSettled-merged :
      (now : I64) (c : JobRecord J) (v : Verdict)
      → owned event organization_id worker_id c ≡ true
      → judge c event ≡ ok v
      → v.apply_event ≡ true
      → IsSettled (merged c event v.append_event guarded now session_id c)
  unfolding merged owned judge
  IsSettled-merged now c v mine j a =
      let (move, grows) = judge-applied c event v j a in
      record {
        mine = mine;
        verdict = record { apply_event = false; append_event = false };
        judged =
            rw (known v.append_event (judge-old c v j), state_eq_refl (next_state event.kind)) refl;
        skipped = refl;
        bound = session;
      }
    where
      known :
          (append : Bool)
          → (append ≡ true) ⊎ (leb event.sequence c.last_event ≡ true)
          → leb event.sequence (if append then event.sequence else c.last_event) ≡ true
      known append h = ground arith

      session :
          (((if guarded && (c.view.session_id =ˢ c.view.session_id)
                then session_id
                else c.view.session_id)
              =ˢ session_id)
            ≡ true)
          ⊎ (guarded ≡ false)
          ⊎ (is_terminal (next_state event.kind) ≡ true)
      session = elim (Bool-cases guarded) [
        | inr free ↦ inr (inl free)
        | inl held ↦ inl (rw (held, =ˢ_refl c.view.session_id) (=ˢ_refl session_id))
      ]

  IsSettled-adopted :
      (now : I64) (c : JobRecord J) (v : Verdict)
      → owned event organization_id worker_id c ≡ true
      → judge c event ≡ ok v
      → v.apply_event ≡ false
      → IsSettled (merge_adopted_job_session c.dispatch.attempt session_id now c)
  unfolding merge_adopted_job_session owned judge
  IsSettled-adopted now c v mine j a =
      elim (Bool-cases
        (not (c.dispatch.attempt == c.dispatch.attempt) || is_terminal c.view.state)) [
          | inl ended ↦ rw ended (record {
            mine = mine;
            verdict = v;
            judged = j;
            skipped = a;
            bound = inr (inr (ground (arith, ==_iff c.dispatch.attempt c.dispatch.attempt)));
          })
          | inr open' ↦ rw open' (record {
            mine = mine;
            verdict = v;
            judged = j;
            skipped = a;
            bound = inl (=ˢ_refl session_id);
          })
        ]

  committed :
      (now : I64) (d : HubData J) (c : JobRecord J) (v : Verdict)
      → get event.job_id d.jobs ≡ some c
      → v.apply_event ≡ true
      → apply_verdict none guarded now session_id event c v d ≡ (
        update_job event.job_id (merged c event v.append_event guarded now session_id) d,
        ok (ack event),
      )
  unfolding apply_verdict commit_event
  committed now d c v there applied =
      rw (applied, apply_verdict)
        (rw (there, matches_snapshot_refl c, commit_event)
          (ap (λ z. (z, ok (ack event))) (never (is_terminal (next_state event.kind)) _ _)))

  adopted :
      (now : I64) (d : HubData J) (c : JobRecord J)
      → (c.view.session_id =ˢ session_id) ≡ false
      → guarded ≡ true
      → adopt_only none guarded now session_id event c d ≡ (
        update_job event.job_id (merge_adopted_job_session c.dispatch.attempt session_id now) d,
        ok (ack event),
      )
  unfolding adopt_only
  adopted now d c other held = rw (other, held) refl

  unmoved :
      (now later : I64) (d : HubData J) (c : JobRecord J) (v : Verdict)
      → get event.job_id d.jobs ≡ some c
      → owned event organization_id worker_id c ≡ true
      → same_id current_session (some session_id) ≡ true
      → judge c event ≡ ok v
      → v.apply_event ≡ false
      → ((c.view.session_id =ˢ session_id) ≡ true)
        ⊎ (guarded ≡ false)
        ⊎ (is_terminal c.view.state ≡ true)
      → call later (call now d).0 ≡ ((call now d).0, ok (ack event))
  unmoved now later d c v there mine fresh j skipped bound =
      let s : IsSettled c = record {
        mine = mine;
        verdict = v;
        judged = j;
        skipped = skipped;
        bound = bound;
      } in
      twice now later d d (settled_again now d c there fresh s)
        (settled_again later d c there fresh s)

  -- Without a store: an event that was acknowledged and comes again, in the same session and with
  -- nothing in between, is acknowledged again and changes nothing.
  pub apply_job_event-replay :
      (now later : I64) (d : HubData J)
      → (call now d).1 ≡ ok (ack event)
      → call later (call now d).0 ≡ ((call now d).0, ok (ack event))
  unfolding apply_job_event
  apply_job_event-replay now later d h = elim (Option-cases (get event.job_id d.jobs)) [
    | inl absent ↦ let h' = rw (absent, apply_job_event) at h in absurd (ground arith)
    | inr (c, there) ↦ elim (Bool-cases (owned event organization_id worker_id c)) [
      | inr foreign' ↦
          twice now later d d (rw (there, foreign', apply_job_event) refl)
            (rw (there, foreign', apply_job_event) refl)
      | inl mine ↦ elim (Bool-cases (same_id current_session (some session_id))) [
        | inr stale ↦
            let h' = rw (there, mine, stale, apply_job_event) at h in absurd (ground arith)
        | inl fresh ↦ elim (Result-cases (judge c event)) [
          | inr (x, j) ↦
              let h' = rw (there, mine, fresh, j, apply_job_event) at h in absurd (ground arith)
          | inl (v, j) ↦ elim (Bool-cases v.apply_event) [
            | inl applied ↦
                let f = merged c event v.append_event guarded now session_id in
                twice now later d (update_job event.job_id f d)
                  (rw (there, mine, fresh, j, apply_job_event) (committed now d c v there applied))
                  (settled_again later _ _
                    (get-update_job (merged c event v.append_event guarded now session_id) d c
                      there)
                    fresh (IsSettled-merged now c v mine j applied))
            | inr skipped ↦ elim (Bool-cases (c.view.session_id =ˢ session_id)) [
              | inl same ↦ unmoved now later d c v there mine fresh j skipped (inl same)
              | inr other ↦ elim (Bool-cases guarded) [
                | inr free ↦ unmoved now later d c v there mine fresh j skipped (inr (inl free))
                | inl held ↦
                    let f = merge_adopted_job_session c.dispatch.attempt session_id now in
                    twice now later d (update_job event.job_id f d)
                      (rw (there, mine, fresh, j, apply_job_event)
                        (rw (skipped, apply_verdict) (adopted now d c other held)))
                      (settled_again later _ _
                        (get-update_job
                          (merge_adopted_job_session c.dispatch.attempt session_id now) d c there)
                        fresh (IsSettled-adopted now c v mine j skipped))
              ]
            ]
          ]
        ]
      ]
    ]
  ]
