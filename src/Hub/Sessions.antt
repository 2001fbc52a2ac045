-- ===== src/Hub/Sessions.antt =====
-- apps/nagisalake-hub/src/hub/sessions.rs: the directory of Worker sessions. A call takes the
-- directory behind its locks, and returns the directory that it leaves. `J` is the type of JSON
-- values. An `Instant` is a number. The order of the dictionary stands for the order in which the
-- hash map is walked; no theorem rests on it.
pub mod SessionKeys
pub mod Registry
pub mod Reserve
pub mod Settle
pub mod Selection
pub mod Machine
pub mod Keys
pub mod Load
pub mod Capacity
pub mod Guard
pub mod Revocation
use nagisa_lake.Prelude.{
  ℕ, ◌+◌, ◌-◌, ◌^◌, min, String, Bool, true, false, ◌||◌, ◌=ˢ◌, Option, none, some, List, [], ◌∷◌,
  length, any, retain, not, if◌then◌else◌, Dict, get,
}
use Prim.Native.String.{◌++◌ as append}
use nagisa_lake.Protocol.Messages.{WorkerCapabilities, total_capacity}

abbrev pub u16_max : ℕ
u16_max = 65535

abbrev pub u32_max : ℕ
u32_max = 4294967295

pub record WorkerView (J : Type 0) : Type 0 where
  pub organization_id : String
  pub owner_user_id : Option String
  pub worker_id : String
  pub session_id : String
  pub namespace : String
  pub node_name : String
  pub capabilities : WorkerCapabilities J
  pub active_jobs : ℕ  -- u16
  pub queued_jobs : ℕ  -- u16
  pub connected_at : ℕ

-- `HashSet<String>`: no entry stands twice.
abbrev pub StringSet : Type 0
StringSet = List String

abbrev pub contains : String → StringSet → Bool
contains k s = any (λ x. x =ˢ k) s

-- `HashSet::insert`: the set, and whether the entry is new.
unfoldable pub set_insert : String → StringSet → StringSet × Bool
set_insert k s = if contains k s then (s, false) else (k ∷ s, true)

-- `HashSet::remove`: the set, and whether the entry was there.
unfoldable pub set_remove : String → StringSet → StringSet × Bool
set_remove k s = (retain (λ x. not (x =ˢ k)) s, contains k s)

-- A session. The channel, the table of ACK waiters and the cancellation token are not fields: what
-- is sent on the first and done to the last is in the answers of the calls.
pub record WorkerSession (J : Type 0) : Type 0 where
  pub view : WorkerView J
  pub credential_id : Option String
  pub pending_capacity_reservations : StringSet
  pub confirmed_capacity_reservations : StringSet
  pub last_seen : ℕ

pub record SessionRegistry (J : Type 0) : Type 0 where
  pub inner : Dict (WorkerSession J)
  pub revoked_credentials : StringSet

-- `format!("{organization_id}\0{worker_id}")`.
unfoldable pub session_key : String → String → String
session_key organization_id worker_id = append organization_id (append "\0" worker_id)

-- `u32::try_from(…).unwrap_or(u32::MAX)`.
unfoldable pub capacity_reservation_count : {J : Type 0} → WorkerSession J → ℕ
capacity_reservation_count s =
    min u32_max (length s.pending_capacity_reservations + length s.confirmed_capacity_reservations)

-- Two `saturating_add`s on `u32`.
unfoldable pub worker_capacity_load : {J : Type 0} → WorkerSession J → ℕ
unfolding capacity_reservation_count
worker_capacity_load s =
    min u32_max
      (min u32_max (s.view.active_jobs + s.view.queued_jobs) + capacity_reservation_count s)

unfoldable pub worker_view_with_reservations : {J : Type 0} → WorkerSession J → WorkerView J
unfolding capacity_reservation_count
worker_view_with_reservations s = record (s.view) {
  queued_jobs = min u16_max (min u32_max (s.view.queued_jobs + capacity_reservation_count s));
}

-- `.get(&session_key(…)).filter(|session| session.view.session_id == session_id)`.
unfoldable pub current :
    {J : Type 0} → SessionRegistry J → String → String → String → Option (WorkerSession J)
current reg organization_id worker_id session_id =
    elim (get (session_key organization_id worker_id) reg.inner) [
      | none ↦ none
      | some s ↦ if s.view.session_id =ˢ session_id then some s else none
    ]
