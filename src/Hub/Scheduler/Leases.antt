-- ===== src/Hub/Scheduler/Leases.antt =====
-- What a pass of apps/nagisalake-hub/src/hub/scheduler.rs leaves in the directory of Workers.
use nagisa_lake.Prelude.{
  ℕ, zero, suc, ◌≡◌, ◌≢◌, refl, subst, ◌∙◌, String, true, false, none, some, List, [], ◌∷◌, All,
  get, put, get-put, =ˢ_refl, ◌=ˢ◌, ok, arith, Option-cases, Result-cases, Bool-cases, inl, inr,
}
use nagisa_lake.Hub.Sessions.{
  WorkerView, WorkerSession, SessionRegistry, contains, set_remove, current, session_key,
}
use nagisa_lake.Hub.Sessions.Reserve.{reserve_capacity_on}
use nagisa_lake.Hub.Sessions.Settle.{release_capacity_reservation, update_current, released}
use nagisa_lake.Hub.Sessions.Machine.{Reachable, stepped, reserve_on, release, step, Within}
use nagisa_lake.Hub.Sessions.Capacity.{Reachable-Within}
use nagisa_lake.Hub.Scheduler.{
  Answers, Round, to_attempt, installs, dispatch_command_id, bind_reserved, dispatch_queued_job,
  schedule_rounds, schedule_pass,
}

contains-set_remove : (c : String) (s : List String) → contains c (set_remove c s).0 ≡ false
unfolding set_remove
contains-set_remove c [] = refl
contains-set_remove c (x ∷ s) = ground (arith, contains-set_remove c s)

module _ {J : Type 0} where
  contains-released :
      (c : String) (s : WorkerSession J)
      → (contains c (released c s).pending_capacity_reservations ≡ false)
        × (contains c (released c s).confirmed_capacity_reservations ≡ false)
        × ((released c s).view.session_id ≡ s.view.session_id)
  unfolding released
  contains-released c s = (
    contains-set_remove c s.pending_capacity_reservations,
    contains-set_remove c s.confirmed_capacity_reservations,
    refl,
  )

  only : {x y : WorkerSession J} → some x ≡ some y → x ≡ y
  only h = ground arith

  none_left : {A : Type 0} {y : WorkerSession J} → none ≡ some y → A
  none_left h = absurd (ground arith)

  -- After a release the session holds nothing for the command.
  release-absent :
      (g : SessionRegistry J) (o w i c : String) (s : WorkerSession J)
      → current (release_capacity_reservation g o w i c) o w i ≡ some s
      → (contains c s.pending_capacity_reservations ≡ false)
        × (contains c s.confirmed_capacity_reservations ≡ false)
  unfolding release_capacity_reservation update_current current
  release-absent g o w i c s h = elim (Option-cases (current g o w i)) [
    | inl absent ↦
        let h' : current g o w i ≡ some s =
          rw (absent, release_capacity_reservation, update_current) at h in
        absurd (ground arith)
    | inr (t, there) ↦
        let k = session_key o w in
        let e : get k (put k (released c t) g.inner) ≡ some (released c t) =
          get-put k k (released c t) g.inner ∙ rw (=ˢ_refl k) in
        let h' = rw (there, e, release_capacity_reservation, update_current, current) at h in
        elim (Bool-cases ((released c t).view.session_id =ˢ i)) [
          | inl same ↦
              let q : released c t ≡ s = only (rw same at h') in
              let absent = contains-released c t in
              subst
                (λ x.
                  (contains c x.pending_capacity_reservations ≡ false)
                  × (contains c x.confirmed_capacity_reservations ≡ false))
                q (absent.0, absent.1)
          | inr other ↦ none_left (rw other at h')
        ]
  ]

  module _ (show : ℕ → String) where
    Reachable-bind_reserved :
        (answers : Answers) (c : String) (worker : WorkerView J) (g : SessionRegistry J)
        → Reachable g
        → Reachable (bind_reserved show answers c worker g).0
    unfolding bind_reserved step
    Reachable-bind_reserved answers c worker g r =
        let freed =
          stepped (release worker.organization_id worker.worker_id worker.session_id c) r tt refl in
        elim (Result-cases answers.bound) [
          | inr (e, b) ↦ rw (b, bind_reserved) freed
          | inl (true, b) ↦ rw (b, bind_reserved) r
          | inl (false, b) ↦ rw (b, bind_reserved) freed
        ]

    Reachable-dispatch :
        (answers : Answers) (meanwhile : SessionRegistry J → SessionRegistry J) (job_id : String)
        (g : SessionRegistry J)
        → ((h : SessionRegistry J) → Reachable h → Reachable (meanwhile h))
        → Reachable g
        → Reachable (dispatch_queued_job show answers meanwhile job_id g).0
    unfolding dispatch_queued_job step
    Reachable-dispatch answers meanwhile job_id g keeps r = elim (Result-cases answers.info) [
      | inr (e, a) ↦ rw (a, dispatch_queued_job) r
      | inl (none, a) ↦ rw (a, dispatch_queued_job) r
      | inl (some job, a) ↦ elim (Result-cases (to_attempt job.attempt)) [
        | inr (e, t) ↦ rw (a, t, dispatch_queued_job) r
        | inl (attempt, t) ↦
            let c = dispatch_command_id show job_id attempt in
            let reserved =
              reserve_capacity_on g job.target_org job.target_device c (installs job) in
            let held : Reachable reserved.0 =
              stepped (reserve_on job.target_org job.target_device c (installs job)) r tt refl in
            elim (Option-cases reserved.1) [
              | inl none' ↦ rw (a, t, none', dispatch_queued_job) held
              | inr (worker, found) ↦
                  rw (a, t, found, dispatch_queued_job)
                    (Reachable-bind_reserved answers c worker (meanwhile reserved.0)
                      (keeps reserved.0 held))
            ]
      ]
    ]

    -- What other tasks do in a round leads from directories that the Hub can come to to such ones.
    abbrev Keeps : Round J → Type 0
    Keeps round =
        ((h : SessionRegistry J) → Reachable h → Reachable (round.before h))
        × ((h : SessionRegistry J) → Reachable h → Reachable (round.meanwhile h))

    Reachable-schedule_rounds :
        (n : ℕ) (rounds : List (Round J)) (g : SessionRegistry J)
        → All Keeps rounds
        → Reachable g
        → Reachable (schedule_rounds show n rounds g)
    unfolding schedule_rounds
    Reachable-schedule_rounds zero rounds g keeps r = r
    Reachable-schedule_rounds (suc n) [] g keeps r = r
    Reachable-schedule_rounds (suc n) (round ∷ rounds) g keeps r =
        let arrived = keeps.0.0 g r in
        elim (Result-cases round.claimed) [
          | inr (e, claim) ↦ rw (claim, schedule_rounds) arrived
          | inl (none, claim) ↦ rw (claim, schedule_rounds) arrived
          | inl (some job_id, claim) ↦
              rw (claim, schedule_rounds)
                (Reachable-schedule_rounds n rounds _ keeps.1 (
                  Reachable-dispatch round.answers round.meanwhile job_id (round.before g) keeps.0.1
                    arrived))
        ]

    -- If a pass of the scheduler starts with a directory that the Hub can come to, and what other
    -- tasks do meanwhile leads to such directories only, then after the pass no Worker carries more
    -- than it announced, whatever the store answers.
    pub schedule_pass-Within :
        (rounds : List (Round J)) (g : SessionRegistry J)
        → All Keeps rounds
        → Reachable g
        → Within (schedule_pass show rounds g)
    unfolding schedule_pass
    schedule_pass-Within rounds g keeps r =
        (Reachable-Within _ (Reachable-schedule_rounds 32 rounds g keeps r)).1

    -- If the store does not bind a job, or fails, then the session that had a slot reserved for it
    -- holds nothing for its command, whatever other tasks did to the directory meanwhile.
    pub bind_reserved-absent :
        (answers : Answers) (command_id : String) (worker : WorkerView J)
        (later : SessionRegistry J) (s : WorkerSession J)
        → answers.bound ≢ ok true
        → current
            (bind_reserved show answers command_id worker later).0
            worker.organization_id
            worker.worker_id
            worker.session_id
          ≡ some s
        → (contains command_id s.pending_capacity_reservations ≡ false)
          × (contains command_id s.confirmed_capacity_reservations ≡ false)
    unfolding bind_reserved
    bind_reserved-absent answers c worker later s unbound h = elim (Result-cases answers.bound) [
      | inr (e, b) ↦
          release-absent later worker.organization_id worker.worker_id worker.session_id c s
            (rw (b, bind_reserved) at h)
      | inl (true, b) ↦ absurd (unbound b)
      | inl (false, b) ↦
          release-absent later worker.organization_id worker.worker_id worker.session_id c s
            (rw (b, bind_reserved) at h)
    ]
