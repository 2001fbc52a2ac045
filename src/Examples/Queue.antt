-- ===== src/Examples/Queue.antt =====
-- A pass of the scheduler over a directory with one Worker.
use nagisa_lake.Prelude.{ℕ, ◌≡◌, ◌≢◌, refl, String, true, false, some, [], ◌∷◌, arith, ok, get, put}
use nagisa_lake.Protocol.Messages.{pos, total_capacity}
use nagisa_lake.Hub.Sessions.{
  SessionRegistry, WorkerSession, contains, current, session_key, set_insert, set_remove,
  WorkerView, worker_view_with_reservations, worker_capacity_load, capacity_reservation_count,
}
use nagisa_lake.Hub.Sessions.Reserve.{reserved, reserve_capacity_on, has_room}
use nagisa_lake.Hub.Sessions.Settle.{release_capacity_reservation, update_current, released}
use nagisa_lake.Hub.Scheduler.{
  Answers, bind_reserved, dispatch_queued_job, to_attempt, dispatch_command_id, installs,
}
use nagisa_lake.Hub.Scheduler.Leases.{bind_reserved-absent}
use nagisa_lake.Examples.Values.{session_of, workflow_one}

abbrev one_digit : ℕ → String
one_digit n = "1"

abbrev refused : Answers
refused = record {
  info = ok (
      some (record {
        workflow_id = "wf";
        workflow_version = "v1";
        target_org = "org";
        target_device = "w1";
        attempt = pos 1;
      }));
  bound = ok false;
}

abbrev equipped : WorkerSession ℕ
equipped =
    let plain = session_of "w1" 1 in
    record plain {
      view = record (plain.view) {
        capabilities = record (plain.view.capabilities) { workflows = workflow_one ∷ [] };
      };
    }

abbrev one_worker : SessionRegistry ℕ
one_worker = record { inner = (session_key "org" "w1", equipped) ∷ []; revoked_credentials = [] }

abbrev undisturbed : SessionRegistry ℕ → SessionRegistry ℕ
undisturbed g = g

abbrev chosen : WorkerView ℕ
chosen = worker_view_with_reservations (reserved "dispatch:job:1" equipped)

-- The store binds the job, and the slot stays held.
abbrev granted : Answers
granted = record refused { bound = ok true }

slot_kept :
    get
      (session_key "org" "w1")
      (dispatch_queued_job one_digit granted undisturbed "job" one_worker).0.inner
    ≡ some (reserved "dispatch:job:1" equipped)
unfolding dispatch_queued_job to_attempt dispatch_command_id installs reserve_capacity_on has_room
    worker_capacity_load capacity_reservation_count total_capacity get put session_key reserved
    set_insert bind_reserved
slot_kept = refl

-- A slot is reserved for the command, and the store does not bind the job.
abbrev holding : WorkerSession ℕ
holding = reserved "command" (session_of "w1" 1)

abbrev with_reservation : SessionRegistry ℕ
with_reservation = record {
  inner = (session_key "org" "w1", holding) ∷ [];
  revoked_credentials = [];
}

freed :
    current
      (bind_reserved one_digit refused "command" holding.view with_reservation).0
      "org"
      "w1"
      "s1"
    ≡ some (released "command" holding)
unfolding bind_reserved release_capacity_reservation update_current current get put session_key
    released reserved set_insert set_remove
freed = refl

not_bound : refused.bound ≢ ok true
not_bound h = absurd (ground arith)

bind_reserved-absent_example :
    (contains "command" (released "command" holding).pending_capacity_reservations ≡ false)
    × (contains "command" (released "command" holding).confirmed_capacity_reservations ≡ false)
unfolding reserved
bind_reserved-absent_example =
    bind_reserved-absent one_digit refused "command" holding.view with_reservation
      (released "command" holding) not_bound freed
