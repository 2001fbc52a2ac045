-- ===== src/Journal/Spec/Outbox.antt =====
-- The pending event of a job as an outbox of one: it stays until its own acknowledgement, or until
-- a newer event of the job takes its place.
use nagisa_lake.Prelude.{
  ℕ, ◌≡◌, refl, ap, ◌∙◌, Bool, true, false, ◌&&◌, Option, some, List, [], ◌∷◌, arith, Bool-cases,
  any, inl, inr, ltb, ◌==◌,
}
use nagisa_lake.Protocol.Json.{JsonOps}
use nagisa_lake.Protocol.Messages.{JobEvent}
use nagisa_lake.Protocol.Equality.{event_eq, event_eq_trans, event_eq-sequence}
use nagisa_lake.Core.{JobRecord, is_terminal, can_transition_to}
use nagisa_lake.Journal.State.{same_dispatch_identity, differs}
use nagisa_lake.Journal.Spec.{
  Request, upsert, set_state, set_prompt, set_pending, clear_pending, job_step, job_run, stale,
  allowed, or_same,
}

-- The requests that may take an event of sequence number `n` out of the outbox.
unfoldable pub settles : {J : Type 0} → ℕ → Request J → Bool
settles n (clear_pending k m) = m == n
settles n (set_pending e s) = ltb n e.sequence
settles n _ = false

-- The record's pending event is `e`, or a replay that is equal to it.
abbrev pub Carries : {J : Type 0} → JobEvent → JobRecord J → Type 0
Carries e r =
    (p : JobEvent) × (r.pending_event ≡ some p)
    × (p.sequence ≡ r.event_sequence)
    × (event_eq e p ≡ true)

abbrev pub StillCarries : {J : Type 0} → JobEvent → Option (JobRecord J) → Type 0
StillCarries {J} e o = (s : JobRecord J) × (o ≡ some s) × Carries e s

-- An event that is neither stale nor newer is the pending one again.
replay :
    {J : Type 0} (r : JobRecord J) (p e : JobEvent)
    → r.pending_event ≡ some p
    → stale r e ≡ false
    → ltb r.event_sequence e.sequence ≡ false
    → (event_eq p e ≡ true) × (e.sequence ≡ r.event_sequence)
unfolding stale differs
replay r p e h new not_newer = ground arith

module _ {J : Type 0} (ops : JsonOps J) (e : JobEvent) where
  job_step-Carries :
      (q : Request J) (r : JobRecord J)
      → Carries e r
      → settles e.sequence q ≡ false
      → StillCarries e (job_step ops q (some r)).0
  unfolding job_step settles
  job_step-Carries (upsert d) r c h = elim (Bool-cases (same_dispatch_identity ops r.dispatch d)) [
    | inr other ↦ rw other (r, refl, c)
    | inl same ↦ rw same (elim (Bool-cases (is_terminal r.state)) [
      | inl ended ↦ rw ended (r, refl, c)
      | inr live ↦ rw live (record r { dispatch = d }, refl, c)
    ])
  ]
  job_step-Carries (set_state k s) r c h = elim (Bool-cases (can_transition_to r.state s)) [
    | inl way ↦ rw way (record r { state = s }, refl, c)
    | inr no_way ↦ rw no_way (r, refl, c)
  ]
  job_step-Carries (set_prompt k p) r c h = (record r { prompt_id = some p }, refl, c)
  job_step-Carries (set_pending e' s) r (p, at, now, same) h = elim (Bool-cases (stale r e')) [
    | inl old ↦ rw old (r, refl, (p, at, now, same))
    | inr new ↦ rw new (elim (Bool-cases (allowed r.state s)) [
      | inr no_way ↦ rw no_way (r, refl, (p, at, now, same))
      | inl way ↦ rw way (
        record r {
          state = or_same r.state s;
          event_sequence = e'.sequence;
          pending_event = some e';
        },
        refl,
        (
          e',
          refl,
          refl,
          event_eq_trans e p e' same
              (replay r p e' at new (ground (arith, event_eq-sequence e p same))).0,
        ),
      )
    ])
  ]
  job_step-Carries (clear_pending k n) r (p, at, now, same) h =
      let other : (r.event_sequence == n) ≡ false = ground (arith, event_eq-sequence e p same) in
      rw other (r, refl, (p, at, now, same))

  pub job_run-Carries :
      (mine : Request J → Bool) (qs : List (Request J)) (r : JobRecord J)
      → Carries e r
      → any (λ q. mine q && settles e.sequence q) qs ≡ false
      → StillCarries e (job_run ops mine qs (some r))
  unfolding job_run
  job_run-Carries mine [] r c h = (r, refl, c)
  job_run-Carries mine (q ∷ qs) r c h = elim (Bool-cases (mine q)) [
    | inl own ↦ rw own (
        onward (job_step-Carries q r c (ground arith))
          (λ s d. job_run-Carries mine qs s d (ground arith)))
    | inr other ↦ rw other (job_run-Carries mine qs r c (ground arith))
  ]
    where
      onward :
          StillCarries e (job_step ops q (some r)).0
          → ((s : JobRecord J) → Carries e s → StillCarries e (job_run ops mine qs (some s)))
          → StillCarries e (job_run ops mine qs (job_step ops q (some r)).0)
      onward (s, at, d) later =
          let (t, at', d') = later s d in (t, ap (job_run ops mine qs) at ∙ at', d')
