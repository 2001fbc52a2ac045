-- ===== src/Hub/Sessions/Keys.antt =====
-- apps/nagisalake-hub/src/hub/sessions.rs keeps one session under a key.
use nagisa_lake.Prelude.{
  ℕ, String, Bool, true, false, not, Distinct, Distinct-put, Distinct-remove, Distinct-retain,
  Bool-cases, Option-cases, inl, inr, get, if◌then◌else◌, is_some, ◌||◌,
}
use nagisa_lake.Hub.Sessions.{
  WorkerSession, WorkerView, SessionRegistry, contains, current, session_key,
}
use nagisa_lake.Hub.Sessions.Registry.{
  update_heartbeat, revoked_session, insert_session, remove_if_current, disconnect_credential,
  reap_revoked_credentials, disconnect_organization, reap_stale,
}
use nagisa_lake.Hub.Sessions.Reserve.{
  has_room, reserved, least_loaded, reserve_capacity, reserve_capacity_on,
  ensure_capacity_reservation,
}
use nagisa_lake.Hub.Sessions.Settle.{
  released, confirmed, settled, update_current, release_capacity_reservation,
  mark_capacity_reservation_uncertain, settle_capacity_reservation,
}
use nagisa_lake.Hub.Sessions.Machine.{
  Call, join, revoke, reap_revoked, drop_organization, leave, heartbeat, reap, reserve, reserve_on,
  ensure, release, mark_uncertain, settle, step,
}

module _ {J : Type 0} (g : SessionRegistry J) (d : Distinct g.inner) where
  update_current-Distinct :
      (o w i : String) (f : WorkerSession J → WorkerSession J)
      → Distinct (update_current g o w i f).inner
  unfolding update_current
  update_current-Distinct o w i f = elim (Option-cases (current g o w i)) [
    | inl e ↦ rw (e, update_current) d
    | inr (s, e) ↦ rw (e, update_current) (Distinct-put _ (f s) g.inner d)
  ]

  join-Distinct : (s : WorkerSession J) → Distinct (insert_session g s).0.inner
  unfolding insert_session
  join-Distinct s = elim (Bool-cases (revoked_session g.revoked_credentials s)) [
    | inl out ↦ rw out d
    | inr in' ↦ rw in' (Distinct-put _ s g.inner d)
  ]

  leave-Distinct : (o w i : String) → Distinct (remove_if_current g o w i).inner
  unfolding remove_if_current
  leave-Distinct o w i = elim (Bool-cases (is_some (current g o w i))) [
    | inl e ↦ rw e (Distinct-remove (session_key o w) g.inner d)
    | inr e ↦ rw e d
  ]

  heartbeat-Distinct :
      (now : ℕ) (o w i : String) (a q : ℕ) → Distinct (update_heartbeat g now o w i a q).0.inner
  unfolding update_heartbeat
  heartbeat-Distinct now o w i a q = elim (Option-cases (current g o w i)) [
    | inl e ↦ rw (e, update_heartbeat) d
    | inr (s, e) ↦ rw (e, update_heartbeat) (Distinct-put _ _ g.inner d)
  ]

  -- Either branch of a test.
  branch-Distinct :
      {A : Type 0} (b : Bool) (x y : SessionRegistry J × A)
      → Distinct x.0.inner
      → Distinct y.0.inner
      → Distinct (if b then x else y).0.inner
  branch-Distinct true x y u v = u
  branch-Distinct false x y u v = v

  reserve-Distinct :
      (c : String) (p : WorkerView J → Bool) → Distinct (reserve_capacity g c p).0.inner
  unfolding reserve_capacity
  reserve-Distinct c p = elim (Option-cases (least_loaded p g.inner)) [
    | inl e ↦ rw (e, reserve_capacity) d
    | inr ((k, s), e) ↦
        rw (e, reserve_capacity)
          (elim (Option-cases (get k g.inner)) [
            | inl e' ↦ rw (e', reserve_capacity) d
            | inr (t, e') ↦
                rw (e', reserve_capacity)
                  (branch-Distinct (contains c t.pending_capacity_reservations) _ _ d
                    (Distinct-put k (reserved c t) g.inner d))
          ])
  ]

  reserve_on-Distinct :
      (o w c : String) (p : WorkerView J → Bool) → Distinct (reserve_capacity_on g o w c p).0.inner
  unfolding reserve_capacity_on
  reserve_on-Distinct o w c p = elim (Option-cases (get (session_key o w) g.inner)) [
    | inl e ↦ rw (e, reserve_capacity_on) d
    | inr (s, e) ↦
        rw (e, reserve_capacity_on)
          (branch-Distinct
            (not (p s.view) || not (has_room s) || contains c s.pending_capacity_reservations) _ _ d
            (Distinct-put _ (reserved c s) g.inner d))
  ]

  ensure-Distinct : (o w i c : String) → Distinct (ensure_capacity_reservation g o w i c).0.inner
  unfolding ensure_capacity_reservation
  ensure-Distinct o w i c = elim (Option-cases (current g o w i)) [
    | inl e ↦ rw (e, ensure_capacity_reservation) d
    | inr (s, e) ↦
        rw (e, ensure_capacity_reservation)
          (elim (Bool-cases (
            contains c s.pending_capacity_reservations
            || contains c s.confirmed_capacity_reservations)) [
              | inl known ↦ rw known d
              | inr new ↦ rw new (
                  branch-Distinct (not (has_room s)) _ _ d
                    (Distinct-put _ (reserved c s) g.inner d))
            ])
  ]

-- Every call keeps one session under a key.
pub step-Distinct :
    {J : Type 0} (g : SessionRegistry J) (c : Call J) → Distinct g.inner → Distinct (step g c).inner
unfolding step disconnect_credential reap_revoked_credentials disconnect_organization reap_stale
    release_capacity_reservation mark_capacity_reservation_uncertain settle_capacity_reservation
step-Distinct g (join s) d = join-Distinct g d s
step-Distinct g (revoke c) d = Distinct-retain _ g.inner d
step-Distinct g reap_revoked d = d
step-Distinct g (drop_organization o) d = Distinct-retain _ g.inner d
step-Distinct g (leave o w i) d = leave-Distinct g d o w i
step-Distinct g (heartbeat now o w i a q) d = heartbeat-Distinct g d now o w i a q
step-Distinct g (reap now n) d = Distinct-retain _ g.inner d
step-Distinct g (reserve c p) d = reserve-Distinct g d c p
step-Distinct g (reserve_on o w c p) d = reserve_on-Distinct g d o w c p
step-Distinct g (ensure o w i c) d = ensure-Distinct g d o w i c
step-Distinct g (release o w i c) d = update_current-Distinct g d o w i (released c)
step-Distinct g (mark_uncertain o w i c) d = update_current-Distinct g d o w i (confirmed c)
step-Distinct g (settle o w i c b) d = update_current-Distinct g d o w i (settled c b)
