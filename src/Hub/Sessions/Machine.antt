-- ===== src/Hub/Sessions/Machine.antt =====
-- The calls of apps/nagisalake-hub/src/hub/sessions.rs that change the directory, as the steps of one
-- machine; each holds the write lock throughout, so an interleaving is a sequence of these steps.
use nagisa_lake.Prelude.{
  ℕ, ◌+◌, ◌≤◌, ◌≡◌, String, Bool, Option, none, some, List, [], ◌∷◌, length, AllValues,
}
use nagisa_lake.Protocol.Messages.{total_capacity}
use nagisa_lake.Hub.Sessions.{
  WorkerSession, WorkerView, SessionRegistry, worker_capacity_load, current,
}
use nagisa_lake.Hub.Sessions.Registry.{
  insert_session, disconnect_credential, reap_revoked_credentials, disconnect_organization,
  remove_if_current, update_heartbeat, reap_stale,
}
use nagisa_lake.Hub.Sessions.Reserve.{
  reserve_capacity, reserve_capacity_on, ensure_capacity_reservation,
}
use nagisa_lake.Hub.Sessions.Settle.{
  release_capacity_reservation, mark_capacity_reservation_uncertain, settle_capacity_reservation,
}

pub data Call (J : Type 0) : Type 0 where
  join : WorkerSession J → Call J
  revoke : String → Call J
  reap_revoked : Call J
  drop_organization : String → Call J
  leave : String → String → String → Call J
  heartbeat : ℕ → String → String → String → ℕ → ℕ → Call J
  reap : ℕ → ℕ → Call J
  reserve : String → (WorkerView J → Bool) → Call J
  reserve_on : String → String → String → (WorkerView J → Bool) → Call J
  ensure : String → String → String → String → Call J
  release : String → String → String → String → Call J
  mark_uncertain : String → String → String → String → Call J
  settle : String → String → String → String → Bool → Call J

unfoldable pub step : {J : Type 0} → SessionRegistry J → Call J → SessionRegistry J
step g (join s) = (insert_session g s).0
step g (revoke c) = (disconnect_credential g c).0
step g reap_revoked = (reap_revoked_credentials g).0
step g (drop_organization o) = (disconnect_organization g o).0
step g (leave o w i) = remove_if_current g o w i
step g (heartbeat now o w i a q) = (update_heartbeat g now o w i a q).0
step g (reap now n) = (reap_stale g now n).0
step g (reserve c p) = (reserve_capacity g c p).0
step g (reserve_on o w c p) = (reserve_capacity_on g o w c p).0
step g (ensure o w i c) = (ensure_capacity_reservation g o w i c).0
step g (release o w i c) = release_capacity_reservation g o w i c
step g (mark_uncertain o w i c) = mark_capacity_reservation_uncertain g o w i c
step g (settle o w i c b) = settle_capacity_reservation g o w i c b

unfoldable pub run : {J : Type 0} → SessionRegistry J → List (Call J) → SessionRegistry J
run g [] = g
run g (q ∷ qs) = run (step g q) qs

-- `SessionRegistry::default`.
unfoldable pub empty : {J : Type 0} → SessionRegistry J
empty = record { inner = []; revoked_credentials = [] }

-- The load that the Hub counts is at most what the Worker announced.
abbrev pub Fits : {J : Type 0} → WorkerSession J → Type 0
Fits s = worker_capacity_load s ≤ total_capacity s.view.capabilities

abbrev pub Within : {J : Type 0} → SessionRegistry J → Type 0
Within g = AllValues Fits g.inner

-- What the environment must keep to: a new session is not over-full, and a heartbeat of the current
-- session reports no more jobs than fit beside the reservations that are still pending.
abbrev pub Reports : {J : Type 0} → Option (WorkerSession J) → ℕ → ℕ → Type 0
Reports none a q = Unit {0}
Reports (some s) a q =
    a + q + length s.pending_capacity_reservations ≤ total_capacity s.view.capabilities

abbrev pub Honest : {J : Type 0} → SessionRegistry J → Call J → Type 0
Honest g (join s) = Fits s
Honest g (heartbeat now o w i a q) = Reports (current g o w i) a q
Honest g _ = Unit {0}

-- The directories that the Hub can come to, with an honest environment.
pub data Reachable {J : Type 0} : SessionRegistry J → Type 0 where
  started : {g : SessionRegistry J} → g ≡ empty → Reachable g
  stepped :
      {g h : SessionRegistry J} (c : Call J) → Reachable g → Honest g c → h ≡ step g c → Reachable h
