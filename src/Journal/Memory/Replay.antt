-- ===== src/Journal/Memory/Replay.antt =====
-- A Worker sends an event that waits for its acknowledgement again: validate.rs of
-- crates/nagisalake-protocol and memory.rs of crates/nagisalake-journal together.
use nagisa_lake.Prelude.{
  ◌≡◌, refl, sym, String, true, false, none, some, Option, ok, get, get-insert, insert, arith,
  eq_iff,
}
use nagisa_lake.Protocol.Float.{F32, is_finite}
use nagisa_lake.Protocol.Messages.{JobEvent}
use nagisa_lake.Protocol.Equality.{event_eq, event_eq_refl, finite_progress}
use nagisa_lake.Protocol.Validate.Loops.{Passes, Passes-and, Passes-fail_if}
use nagisa_lake.Protocol.Validate.Payloads.{validate_job_event, bad_progress}
use nagisa_lake.Protocol.Validate.Accepted.{required-Passes}
use nagisa_lake.Core.{JobRecord}
use nagisa_lake.Journal.State.{validate_event_sequence, differs}
use nagisa_lake.Journal.Memory.{Records, next_state, set_pending_event}

finite_enough :
    (o : Option F32) → bad_progress o ≡ false → elim o [ none ↦ true | some p ↦ is_finite p ] ≡ true
unfolding bad_progress
finite_enough none h = refl
finite_enough (some p) h = ground arith

-- An accepted event has a progress that is equal to itself.
accepted_event_eq : (e : JobEvent) → Passes (validate_job_event e) → event_eq e e ≡ true
unfolding validate_job_event finite_progress
accepted_event_eq e h = event_eq_refl e (
    finite_enough e.progress
      ((Passes-and _ _ (required-Passes _ _)
          (Passes-and _ _ (Passes-fail_if _ _) (Passes-fail_if _ _))).0
        h).1.1)

rewritten :
    {J : Type 0} (r : JobRecord J) (e : JobEvent)
    → r.pending_event ≡ some e
    → r.event_sequence ≡ e.sequence
    → record r { state = r.state; event_sequence = e.sequence; pending_event = some e } ≡ r
rewritten r e p s = λ i. record r { event_sequence = sym s i; pending_event = sym p i }

put_back :
    {J : Type 0} (m : Records J) (t k : String) (r s : JobRecord J)
    → get t m ≡ some r
    → s ≡ r
    → get k (insert t s m) ≡ get k m
put_back m t k r s at e = ground (arith, get-insert t k s m, eq_iff t k)

-- The replay of a pending event that passes validation succeeds, and changes no record.
pub set_pending_event-replay :
    {J : Type 0} (m : Records J) (r : JobRecord J) (e : JobEvent) (k : String)
    → Passes (validate_job_event e)
    → get e.job_id m ≡ some r
    → r.pending_event ≡ some e
    → r.event_sequence ≡ e.sequence
    → ((set_pending_event m e none).1 ≡ ok tt) × (get k (set_pending_event m e none).0 ≡ get k m)
unfolding set_pending_event validate_event_sequence differs next_state
set_pending_event-replay m r e k v at p s =
    let q = accepted_event_eq e v in
    let w = put_back m e.job_id k r _ at (rewritten r e p s) in
    (ground (arith, q), ground (arith, q, w))
