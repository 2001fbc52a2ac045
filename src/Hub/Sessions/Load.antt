-- ===== src/Hub/Sessions/Load.antt =====
-- What each change of a session in apps/nagisalake-hub/src/hub/sessions.rs does to its load.
use nagisa_lake.Prelude.{
  ℕ, suc, ◌≤◌, ◌≡◌, ap, String, Bool, true, false, some, [], ◌∷◌, not, arith, length,
  length-retain-le, Bool-cases, inl, inr, ◌=ˢ◌,
}
use nagisa_lake.Protocol.Messages.{total_capacity}
use nagisa_lake.Hub.Sessions.{
  WorkerSession, StringSet, contains, set_insert, set_remove, worker_capacity_load,
}
use nagisa_lake.Hub.Sessions.Reserve.{has_room, reserved}
use nagisa_lake.Hub.Sessions.Settle.{released, confirmed, settled}
use nagisa_lake.Hub.Sessions.Machine.{Fits, Reports}

length-set_insert-le : (c : String) (s : StringSet) → length (set_insert c s).0 ≤ suc (length s)
unfolding set_insert
length-set_insert-le c s = ground arith

length-set_remove-le : (c : String) (s : StringSet) → length (set_remove c s).0 ≤ length s
unfolding set_remove
length-set_remove-le c s = length-retain-le (λ x. not (x =ˢ c)) s

-- An entry that is there makes room when it goes.
length-set_remove-lt :
    (c : String) (s : StringSet) → contains c s ≡ true → suc (length (set_remove c s).0) ≤ length s
unfolding set_remove
length-set_remove-lt c [] h = cc
length-set_remove-lt c (x ∷ s) h =
    ground (arith, length-set_remove-lt c s, length-retain-le (λ (x : String). not (x =ˢ c)) s)

module _ {J : Type 0} (c : String) (s : WorkerSession J) where
  load-reserved-le : worker_capacity_load (reserved c s) ≤ suc (worker_capacity_load s)
  unfolding worker_capacity_load reserved
  load-reserved-le = omega (arith, length-set_insert-le c s.pending_capacity_reservations)

  load-released-le : worker_capacity_load (released c s) ≤ worker_capacity_load s
  unfolding worker_capacity_load released
  load-released-le = omega (
    arith,
    length-set_remove-le c s.pending_capacity_reservations,
    length-set_remove-le c s.confirmed_capacity_reservations,
  )

  load-confirmed-le : worker_capacity_load (confirmed c s) ≤ worker_capacity_load s
  unfolding worker_capacity_load confirmed
  load-confirmed-le = elim (Bool-cases (contains c s.pending_capacity_reservations)) [
    | inr absent ↦ rw absent (omega arith)
    | inl there ↦ rw there (
        omega (
          arith,
          length-set_remove-lt c s.pending_capacity_reservations there,
          length-set_insert-le c s.confirmed_capacity_reservations,
        ))
  ]

  pub Fits-reserved : has_room s ≡ true → Fits (reserved c s)
  unfolding has_room reserved
  Fits-reserved h = ground (arith, load-reserved-le)

  pub Fits-released : Fits s → Fits (released c s)
  unfolding released
  Fits-released h = omega (arith, load-released-le)

  view-confirmed : (confirmed c s).view ≡ s.view
  unfolding confirmed
  view-confirmed = elim (Bool-cases (contains c s.pending_capacity_reservations)) [
    | inl there ↦ rw there
    | inr absent ↦ rw absent
  ]

  pub Fits-confirmed : Fits s → Fits (confirmed c s)
  Fits-confirmed h =
      omega (arith, load-confirmed-le, ap (λ v. total_capacity v.capabilities) view-confirmed)

  pub Fits-settled : (b : Bool) → Fits s → Fits (settled c b s)
  unfolding settled
  Fits-settled true h = Fits-confirmed h
  Fits-settled false h = Fits-released h

pub Fits-heartbeat :
    {J : Type 0} (now a q : ℕ) (s : WorkerSession J)
    → Reports (some s) a q
    → Fits (record s {
      view = record (s.view) { active_jobs = a; queued_jobs = q };
      confirmed_capacity_reservations = [];
      last_seen = now;
    })
unfolding worker_capacity_load
Fits-heartbeat now a q s h = omega arith
