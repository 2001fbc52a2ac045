-- ===== src/Hub/Sessions/Settle.antt =====
-- apps/nagisalake-hub/src/hub/sessions.rs: a reservation is released, confirmed or left uncertain.
use nagisa_lake.Prelude.{String, Bool, true, false, none, some, if◌then◌else◌, put}
use nagisa_lake.Hub.Sessions.{
  WorkerSession, SessionRegistry, contains, set_insert, set_remove, session_key, current,
}

module _ {J : Type 0} where
  -- Both removals.
  unfoldable pub released : String → WorkerSession J → WorkerSession J
  unfolding set_remove
  released c s = record s {
    pending_capacity_reservations = (set_remove c s.pending_capacity_reservations).0;
    confirmed_capacity_reservations = (set_remove c s.confirmed_capacity_reservations).0;
  }

  -- `if pending.remove(c) { confirmed.insert(c) }`.
  unfoldable pub confirmed : String → WorkerSession J → WorkerSession J
  unfolding set_remove set_insert
  confirmed c s =
      if contains c s.pending_capacity_reservations
      then record s {
        pending_capacity_reservations = (set_remove c s.pending_capacity_reservations).0;
        confirmed_capacity_reservations = (set_insert c s.confirmed_capacity_reservations).0;
      }
      else s

  -- On the exact session, and only while it is the current one.
  unfoldable pub update_current :
      SessionRegistry J
      → String
      → String
      → String
      → (WorkerSession J → WorkerSession J)
      → SessionRegistry J
  unfolding current
  update_current reg o w session_id f = elim (current reg o w session_id) [
    | none ↦ reg
    | some s ↦ record reg { inner = put (session_key o w) (f s) reg.inner }
  ]

  unfoldable pub release_capacity_reservation :
      SessionRegistry J → String → String → String → String → SessionRegistry J
  unfolding update_current released
  release_capacity_reservation reg o w session_id c = update_current reg o w session_id (released c)

  unfoldable pub mark_capacity_reservation_uncertain :
      SessionRegistry J → String → String → String → String → SessionRegistry J
  unfolding update_current confirmed
  mark_capacity_reservation_uncertain reg o w session_id c =
      update_current reg o w session_id (confirmed c)

  -- `if pending.remove(c) && accepted { … } else if !accepted { confirmed.remove(c) }`.
  unfoldable pub settled : String → Bool → WorkerSession J → WorkerSession J
  unfolding released confirmed
  settled c true s = confirmed c s
  settled c false s = released c s

  unfoldable pub settle_capacity_reservation :
      SessionRegistry J → String → String → String → String → Bool → SessionRegistry J
  unfolding update_current settled
  settle_capacity_reservation reg o w session_id c accepted =
      update_current reg o w session_id (settled c accepted)
