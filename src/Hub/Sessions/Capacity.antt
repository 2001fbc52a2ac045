-- ===== src/Hub/Sessions/Capacity.antt =====
-- apps/nagisalake-hub/src/hub/sessions.rs never hands a Worker more than it announced.
use nagisa_lake.Prelude.{
  ℕ, ◌≡◌, refl, subst, String, Bool, true, false, some, not, arith, AllValues, AllValues-get,
  AllValues-put, put, Distinct, AllValues-remove, AllValues-retain, Bool-cases, Option-cases, inl,
  inr, get, if◌then◌else◌, is_some, ◌||◌,
}
use nagisa_lake.Hub.Sessions.{
  WorkerSession, WorkerView, SessionRegistry, contains, current, session_key,
}
use nagisa_lake.Hub.Sessions.Registry.{
  update_heartbeat, revoked_session, insert_session, remove_if_current, disconnect_credential,
  reap_revoked_credentials, disconnect_organization, reap_stale,
}
use nagisa_lake.Hub.Sessions.Reserve.{
  has_room, reserved, least_loaded, reserve_capacity, reserve_capacity_on,
  ensure_capacity_reservation,
}
use nagisa_lake.Hub.Sessions.Settle.{
  released, confirmed, settled, update_current, release_capacity_reservation,
  mark_capacity_reservation_uncertain, settle_capacity_reservation,
}
use nagisa_lake.Hub.Sessions.Selection.{Least, LeastOption, least_loaded-LeastOption}
use nagisa_lake.Hub.Sessions.Keys.{step-Distinct}
use nagisa_lake.Hub.Sessions.Load.{
  Fits-reserved, Fits-released, Fits-confirmed, Fits-settled, Fits-heartbeat,
}
use nagisa_lake.Hub.Sessions.Machine.{
  Call, join, revoke, reap_revoked, drop_organization, leave, heartbeat, reap, reserve, reserve_on,
  ensure, release, mark_uncertain, settle, step, empty, Fits, Within, Honest, Reports, Reachable,
  started, stepped,
}

module _ {J : Type 0} (g : SessionRegistry J) (within : Within g) where
  found : (k : String) (s : WorkerSession J) → get k g.inner ≡ some s → Fits s
  found k s e = AllValues-get Fits k g.inner s within e

  write : (k : String) (s : WorkerSession J) → Fits s → AllValues Fits (put k s g.inner)
  write k s f = AllValues-put Fits k s g.inner f within

  current-Fits : (o w i : String) (s : WorkerSession J) → current g o w i ≡ some s → Fits s
  unfolding current
  current-Fits o w i s e = found (session_key o w) s (ground arith)

  update_current-Within :
      (o w i : String) (f : WorkerSession J → WorkerSession J)
      → ((s : WorkerSession J) → Fits s → Fits (f s))
      → Within (update_current g o w i f)
  unfolding update_current
  update_current-Within o w i f keeps = elim (Option-cases (current g o w i)) [
    | inl e ↦ rw (e, update_current) within
    | inr (s, e) ↦ rw (e, update_current) (write _ (f s) (keeps s (current-Fits o w i s e)))
  ]

  -- Either branch of a test, the second one knowing that the test failed.
  branch-Within :
      {A : Type 0} (b : Bool) (x y : SessionRegistry J × A)
      → Within x.0
      → (b ≡ false → Within y.0)
      → Within (if b then x else y).0
  branch-Within true x y u v = u
  branch-Within false x y u v = v refl

  reserving :
      (k c : String) (s : WorkerSession J)
      → has_room s ≡ true
      → AllValues Fits (put k (reserved c s) g.inner)
  reserving k c s room = write k (reserved c s) (Fits-reserved c s room)

  reserve-Within :
      (c : String) (p : WorkerView J → Bool) → Distinct g.inner → Within (reserve_capacity g c p).0
  unfolding reserve_capacity
  reserve-Within c p d = elim (Option-cases (least_loaded p g.inner)) [
    | inl e ↦ rw (e, reserve_capacity) within
    | inr ((k, s), e) ↦
        selected k s e (subst (LeastOption p g.inner) e (least_loaded-LeastOption p g.inner d))
  ]
    where
      selected :
          (k : String) (s : WorkerSession J)
          → least_loaded p g.inner ≡ some (k, s)
          → Least p g.inner k s
          → Within (reserve_capacity g c p).0
      selected k s e l =
          rw (e, l.held, reserve_capacity)
            (branch-Within (contains c s.pending_capacity_reservations) _ _ within
              (λ _. reserving k c s l.roomy))

  reserve_on-Within :
      (o w c : String) (p : WorkerView J → Bool) → Within (reserve_capacity_on g o w c p).0
  unfolding reserve_capacity_on
  reserve_on-Within o w c p = elim (Option-cases (get (session_key o w) g.inner)) [
    | inl e ↦ rw (e, reserve_capacity_on) within
    | inr (s, e) ↦
        rw (e, reserve_capacity_on)
          (branch-Within
            (not (p s.view) || not (has_room s) || contains c s.pending_capacity_reservations) _ _
            within
            (λ free.
              reserving (session_key o w) c s
                (second (p s.view) (has_room s) (contains c s.pending_capacity_reservations) free)))
  ]
    where
      second : (x y z : Bool) → (not x || not y || z) ≡ false → y ≡ true
      second x y z h = ground arith

  ensure-Within : (o w i c : String) → Within (ensure_capacity_reservation g o w i c).0
  unfolding ensure_capacity_reservation
  ensure-Within o w i c = elim (Option-cases (current g o w i)) [
    | inl e ↦ rw (e, ensure_capacity_reservation) within
    | inr (s, e) ↦
        rw (e, ensure_capacity_reservation)
          (elim (Bool-cases (
            contains c s.pending_capacity_reservations
            || contains c s.confirmed_capacity_reservations)) [
              | inl known ↦ rw known within
              | inr new ↦ rw new (elim (Bool-cases (has_room s)) [
                | inl room ↦ rw room (reserving (session_key o w) c s room)
                | inr full ↦ rw full within
              ])
            ])
  ]

  heartbeat-Within :
      (now : ℕ) (o w i : String) (a q : ℕ)
      → Reports (current g o w i) a q
      → Within (update_heartbeat g now o w i a q).0
  unfolding update_heartbeat
  heartbeat-Within now o w i a q h = elim (Option-cases (current g o w i)) [
    | inl e ↦ rw (e, update_heartbeat) within
    | inr (s, e) ↦ rw (e, update_heartbeat) (write _ _ (Fits-heartbeat now a q s (rw e at h)))
  ]

  join-Within : (s : WorkerSession J) → Fits s → Within (insert_session g s).0
  unfolding insert_session
  join-Within s f = elim (Bool-cases (revoked_session g.revoked_credentials s)) [
    | inl out ↦ rw out within
    | inr in' ↦ rw in' (write _ s f)
  ]

  leave-Within : (o w i : String) → Within (remove_if_current g o w i)
  unfolding remove_if_current
  leave-Within o w i = elim (Bool-cases (is_some (current g o w i))) [
    | inl e ↦ rw e (AllValues-remove Fits (session_key o w) g.inner within)
    | inr e ↦ rw e within
  ]

step-Within :
    {J : Type 0} (g : SessionRegistry J) (c : Call J)
    → Distinct g.inner
    → Within g
    → Honest g c
    → Within (step g c)
unfolding step disconnect_credential reap_revoked_credentials disconnect_organization reap_stale
    release_capacity_reservation mark_capacity_reservation_uncertain settle_capacity_reservation
step-Within g (join s) d within h = join-Within g within s h
step-Within g (revoke c) d within h = AllValues-retain Fits _ g.inner within
step-Within g reap_revoked d within h = within
step-Within g (drop_organization o) d within h = AllValues-retain Fits _ g.inner within
step-Within g (leave o w i) d within h = leave-Within g within o w i
step-Within g (heartbeat now o w i a q) d within h = heartbeat-Within g within now o w i a q h
step-Within g (reap now n) d within h = AllValues-retain Fits _ g.inner within
step-Within g (reserve c p) d within h = reserve-Within g within c p d
step-Within g (reserve_on o w c p) d within h = reserve_on-Within g within o w c p
step-Within g (ensure o w i c) d within h = ensure-Within g within o w i c
step-Within g (release o w i c) d within h =
    update_current-Within g within o w i (released c) (Fits-released c)
step-Within g (mark_uncertain o w i c) d within h =
    update_current-Within g within o w i (confirmed c) (Fits-confirmed c)
step-Within g (settle o w i c b) d within h =
    update_current-Within g within o w i (settled c b) (λ s. Fits-settled c s b)

-- Whatever the honest environment does, no session carries more than its Worker announced, and no
-- key stands twice.
pub Reachable-Within :
    {J : Type 0} (g : SessionRegistry J) → Reachable g → Distinct g.inner × Within g
unfolding empty
Reachable-Within g (started e) = rw e (tt, tt)
Reachable-Within h (stepped {g = g} c r honest e) =
    let (d, within) = Reachable-Within g r in
    rw e (step-Distinct g c d, step-Within g c d within honest)
