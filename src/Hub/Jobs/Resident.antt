-- ===== src/Hub/Jobs/Resident.antt =====
-- The events that stay resident with a job: apps/nagisalake-hub/src/hub/worker.rs.
use nagisa_lake.Prelude.{
  ℕ, ◌+◌, ◌-◌, ◌≤◌, ◌<◌, ◌≡◌, inl, inr, subst, String, Bool, true, Option, some, List, [], ◌∷◌,
  ◌++◌, length, drop, length-drop, if_both, ltb, get, ok, arith, Bool-cases, Increasing,
  Increasing-high, Increasing-drop, Increasing-push, AllValues, AllValues-get,
}
use nagisa_lake.Protocol.Messages.{I64, JobEvent}
use nagisa_lake.Hub.Jobs.{JobEventView, JobView, JobRecord, HubData, matches_snapshot}
use nagisa_lake.Hub.Jobs.Events.{
  StoredJob, Answers, Verdict, judge, merged, merge_adopted_job_session, adopt_durable, trim_events,
  event_view, max_resident_job_events, to_sequence, apply_job_event,
}
use nagisa_lake.Hub.Jobs.Steps.{Related, Related-apply_job_event}
use nagisa_lake.Hub.Jobs.Evolves.{judge-applied, matches_snapshot-same}

-- At most 256 events, none twice and in the order of their sequence numbers, up to a last one.
pub record IsTimeline (last : ℕ) (events : List JobEventView) : Type 0 where
  pub few : length events ≤ max_resident_job_events
  pub ordered : Increasing (λ v. v.sequence) 0 (last + 1) events

length-trim_events-le :
    (events : List JobEventView) → length (trim_events events) ≤ max_resident_job_events
unfolding trim_events
length-trim_events-le events =
    ground (arith, length-drop (length events - max_resident_job_events) events)

IsTimeline-push :
    (last : ℕ) (v : JobEventView) (events : List JobEventView)
    → last < v.sequence
    → IsTimeline last events
    → IsTimeline v.sequence (trim_events (events ++ (v ∷ [])))
unfolding trim_events
IsTimeline-push last v events lt t =
    let all = events ++ (v ∷ []) in
    let pushed = Increasing-push (λ v. v.sequence) 0 (last + 1) events v (omega arith) t.ordered in
    record {
      few = length-trim_events-le (events ++ (v ∷ []));
      ordered =
          if_both (Increasing (λ v. v.sequence) 0 (v.sequence + 1))
            (ltb max_resident_job_events (length all))
            (drop (length all - max_resident_job_events) all) all
            (Increasing-drop (λ v. v.sequence) (length all - max_resident_job_events) 0
              (v.sequence + 1) all pushed)
            pushed;
    }

module _ {J : Type 0} where
  unfoldable pub HasTimeline : JobRecord J → Type 0
  HasTimeline c = IsTimeline c.last_event c.view.events

  -- A write keeps it.
  Keeps : JobRecord J → JobRecord J → Type 0
  Keeps c c' = HasTimeline c → HasTimeline c'

  Keeps-merged :
      (event : JobEvent) (guarded : Bool) (now : I64) (session_id : String) (snapshot : JobRecord J)
      (v : Verdict)
      → judge snapshot event ≡ ok v
      → v.apply_event ≡ true
      → (c : JobRecord J) → matches_snapshot snapshot c ≡ true
      → Keeps c (merged snapshot event v.append_event guarded now session_id c)
  unfolding merged Keeps HasTimeline event_view
  Keeps-merged event guarded now session_id snapshot v j a c same t =
      let (move, grows) = judge-applied snapshot event v j a in
      let (state, last) = matches_snapshot-same snapshot c same in
      elim (Bool-cases v.append_event) [
        | inr kept ↦ rw kept (subst (λ n. IsTimeline n c.view.events) last t)
        | inl appended ↦
            let lt : c.last_event < event.sequence = ground arith in
            rw appended (
              if_both (IsTimeline event.sequence) _ _ _
                (IsTimeline-push c.last_event (event_view event) c.view.events lt t)
                (record {
                  few = t.few;
                  ordered =
                      Increasing-high (λ v. v.sequence) 0 (c.last_event + 1) (event.sequence + 1)
                        c.view.events (omega arith) t.ordered;
                }))
      ]

  Keeps-adopted :
      (attempt : ℕ) (session_id : String) (now : I64) (c : JobRecord J)
      → Keeps c (merge_adopted_job_session attempt session_id now c)
  unfolding merge_adopted_job_session Keeps HasTimeline
  Keeps-adopted attempt session_id now c t = if_both HasTimeline _ _ _ t t

  Keeps-durable :
      (last : ℕ) (view : JobView J) (c : JobRecord J)
      → IsTimeline last view.events
      → Keeps c (adopt_durable last view c)
  unfolding adopt_durable Keeps HasTimeline
  Keeps-durable last view c stored t = if_both HasTimeline _ _ _ t stored

  -- What the store has of the job has a timeline itself.
  unfoldable pub HasTimelines : Option (Answers J) → Type 0
  HasTimelines store =
      (answers : Answers J) (stored : StoredJob J) (view : JobView J) (last : ℕ)
      → store ≡ some answers
      → answers.job ≡ ok (some stored)
      → to_sequence stored.last_event ≡ ok last
      → stored.durable ≡ ok view
      → IsTimeline last view.events

  -- If each resident job has at most 256 events, none twice and in the order of their sequence
  -- numbers, up to its last one, and so has what the store has of the job, then a job that is
  -- resident after a call of `apply_job_event` has such events, whatever the event is.
  pub apply_job_event-HasTimeline :
      (store : Option (Answers J)) (guarded : Bool) (now : I64) (session_id : String)
      (event : JobEvent) (current_session : Option String) (organization_id worker_id : String)
      (seen later : HubData J)
      → HasTimelines store
      → AllValues HasTimeline later.jobs
      → (k : String) (c : JobRecord J)
      → get k
          (apply_job_event store guarded now session_id event current_session organization_id
            worker_id seen later).0.jobs
        ≡ some c
      → HasTimeline c
  unfolding Related Keeps HasTimelines
  apply_job_event-HasTimeline store guarded now session_id event current o w seen later stored all k
        c e =
      let (before, there, keeps) =
        Related-apply_job_event Keeps (λ c t. t) store guarded now session_id event
          (Keeps-merged event guarded now session_id)
          (λ attempt c. Keeps-adopted attempt session_id now c)
          (λ answers row view last e f g h c.
            Keeps-durable last view c (stored answers row view last e f g h))
          current o w seen later k c e in
      keeps (AllValues-get HasTimeline k later.jobs before all there)
