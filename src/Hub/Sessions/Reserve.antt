-- ===== src/Hub/Sessions/Reserve.antt =====
-- apps/nagisalake-hub/src/hub/sessions.rs: a slot of a Worker is reserved for a command.
use nagisa_lake.Prelude.{
  String, Bool, true, false, ◌&&◌, ◌||◌, not, Option, none, some, [], ◌∷◌, ltb, leb, if◌then◌else◌,
  Dict, get, put,
}
use nagisa_lake.Protocol.Messages.{total_capacity}
use nagisa_lake.Hub.Sessions.{
  WorkerSession, WorkerView, SessionRegistry, contains, set_insert, session_key, current,
  worker_capacity_load, worker_view_with_reservations,
}

module _ {J : Type 0} where
  unfoldable pub has_room : WorkerSession J → Bool
  has_room s = ltb (worker_capacity_load s) (total_capacity s.view.capabilities)

  -- Of equal loads the first session counts.
  unfoldable pub lighter :
      String
      → WorkerSession J
      → Option (String × WorkerSession J)
      → Option (String × WorkerSession J)
  lighter k s none = some (k, s)
  lighter k s (some (j, t)) =
      if leb (worker_capacity_load s) (worker_capacity_load t) then some (k, s) else some (j, t)

  -- The two `filter`s, and `min_by_key`.
  unfoldable pub least_loaded :
      (WorkerView J → Bool) → Dict (WorkerSession J) → Option (String × WorkerSession J)
  least_loaded predicate [] = none
  least_loaded predicate ((k, s) ∷ m) =
      let rest = least_loaded predicate m in
      if predicate s.view && has_room s then lighter k s rest else rest

  -- A session with the command among its pending reservations.
  unfoldable pub reserved : String → WorkerSession J → WorkerSession J
  unfolding set_insert
  reserved command_id s = record s {
    pending_capacity_reservations = (set_insert command_id s.pending_capacity_reservations).0;
  }

  unfoldable pub reserve_capacity :
      SessionRegistry J → String → (WorkerView J → Bool) → SessionRegistry J × Option (WorkerView J)
  reserve_capacity reg command_id predicate = elim (least_loaded predicate reg.inner) [
    | none ↦ (reg, none)
    | some (key, _) ↦ elim (get key reg.inner) [
      | none ↦ (reg, none)
      | some s ↦ if contains command_id s.pending_capacity_reservations then (reg, none) else (
        record reg { inner = put key (reserved command_id s) reg.inner },
        some (worker_view_with_reservations (reserved command_id s)),
      )
    ]
  ]

  unfoldable pub reserve_capacity_on :
      SessionRegistry J
      → String
      → String
      → String
      → (WorkerView J → Bool)
      → SessionRegistry J × Option (WorkerView J)
  reserve_capacity_on reg o w command_id predicate = elim (get (session_key o w) reg.inner) [
    | none ↦ (reg, none)
    | some s ↦
        if not (predicate s.view)
          || not (has_room s)
          || contains command_id s.pending_capacity_reservations
        then (reg, none)
        else (
          record reg { inner = put (session_key o w) (reserved command_id s) reg.inner },
          some (worker_view_with_reservations (reserved command_id s)),
        )
  ]

  unfoldable pub ensure_capacity_reservation :
      SessionRegistry J → String → String → String → String → SessionRegistry J × Bool
  ensure_capacity_reservation reg o w session_id command_id = elim (current reg o w session_id) [
    | none ↦ (reg, false)
    | some s ↦
        if contains command_id s.pending_capacity_reservations
          || contains command_id s.confirmed_capacity_reservations
        then (reg, true)
        else (if not (has_room s) then (reg, false) else (
          record reg { inner = put (session_key o w) (reserved command_id s) reg.inner },
          true,
        ))
  ]
