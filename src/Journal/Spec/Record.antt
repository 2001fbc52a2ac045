-- ===== src/Journal/Spec/Record.antt =====
-- What a job's record satisfies, and how it may change, over any history of requests.
use nagisa_lake.Prelude.{
  ◌≤◌, ◌≡◌, refl, String, Bool, true, false, Option, none, some, List, [], ◌∷◌, arith, Bool-cases,
  subst, sym, ap, ◌∙◌, ◌==◌, inl, inr,
}
use nagisa_lake.Protocol.Json.{JsonOps}
use nagisa_lake.Protocol.Messages.{JobEvent}
use nagisa_lake.Core.{JobState, JobRecord, new_received, is_terminal, can_transition_to}
use nagisa_lake.Core.Lifecycle.{◌⟶*◌, here, append-⟶*, allowed-⟶*}
use nagisa_lake.Journal.State.{same_dispatch_identity}
use nagisa_lake.Journal.State.Identity.{same_dispatch_identity_refl, same_dispatch_identity_trans}
use nagisa_lake.Journal.Spec.{
  Request, upsert, set_state, set_prompt, set_pending, clear_pending, target, job_step, job_run,
  stale, allowed, or_same,
}

-- A record stands under its own id, and its pending event is its newest event.
pub record RecordInv {J : Type 0} (k : String) (r : JobRecord J) : Type 0 where
  pub keyed : r.dispatch.job_id ≡ k
  pub newest : (e : JobEvent) → r.pending_event ≡ some e → e.sequence ≡ r.event_sequence
  pub own : (e : JobEvent) → r.pending_event ≡ some e → e.job_id ≡ k

abbrev pub OptionInv : {J : Type 0} → String → Option (JobRecord J) → Type 0
OptionInv k none = Unit {0}
OptionInv k (some r) = RecordInv k r

-- From one record of a job to a later one.
pub record Evolves {J : Type 0} (ops : JsonOps J) (r s : JobRecord J) : Type 0 where
  pub path : r.state ⟶* s.state
  pub monotone : r.event_sequence ≤ s.event_sequence
  pub identity : same_dispatch_identity ops r.dispatch s.dispatch ≡ true

module _ {J : Type 0} (ops : JsonOps J) where
  job_step-OptionInv :
      (q : Request J) (o : Option (JobRecord J))
      → OptionInv (target q) o
      → OptionInv (target q) (job_step ops q o).0
  unfolding job_step new_received
  job_step-OptionInv (upsert d) none h = record {
    keyed = refl;
    newest = λ e p. cc;
    own = λ e p. cc;
  }
  job_step-OptionInv (upsert d) (some r) h =
      elim (Bool-cases (same_dispatch_identity ops r.dispatch d)) [
        | inr other ↦ rw other h
        | inl same ↦ rw same (elim (Bool-cases (is_terminal r.state)) [
          | inl ended ↦ rw ended h
          | inr live ↦ rw live (record { keyed = refl; newest = h.newest; own = h.own })
        ])
      ]
  job_step-OptionInv (set_state k s) none h = tt
  job_step-OptionInv (set_state k s) (some r) h = elim (Bool-cases (can_transition_to r.state s)) [
    | inl way ↦ rw way (record { keyed = h.keyed; newest = h.newest; own = h.own })
    | inr no_way ↦ rw no_way h
  ]
  job_step-OptionInv (set_prompt k p) none h = tt
  job_step-OptionInv (set_prompt k p) (some r) h = record {
    keyed = h.keyed;
    newest = h.newest;
    own = h.own;
  }
  job_step-OptionInv (set_pending e s) none h = tt
  job_step-OptionInv (set_pending e s) (some r) h = elim (Bool-cases (stale r e)) [
    | inl old ↦ rw old h
    | inr new ↦ rw new (elim (Bool-cases (allowed r.state s)) [
      | inr no_way ↦ rw no_way h
      | inl way ↦ rw way (record { keyed = h.keyed; newest = λ e' p. cc; own = λ e' p. cc })
    ])
  ]
  job_step-OptionInv (clear_pending k n) none h = tt
  job_step-OptionInv (clear_pending k n) (some r) h = elim (Bool-cases (r.event_sequence == n)) [
    | inl now ↦ rw now (record { keyed = h.keyed; newest = λ e p. cc; own = λ e p. cc })
    | inr later ↦ rw later h
  ]

  Evolves-refl : (r : JobRecord J) → Evolves ops r r
  Evolves-refl r = record {
    path = here;
    monotone = omega arith;
    identity = same_dispatch_identity_refl ops r.dispatch;
  }

  Evolves-trans : {r s t : JobRecord J} → Evolves ops r s → Evolves ops s t → Evolves ops r t
  Evolves-trans {r} {s} {t} h k = record {
    path = append-⟶* h.path k.path;
    monotone = omega arith;
    identity =
        same_dispatch_identity_trans ops r.dispatch s.dispatch t.dispatch h.identity k.identity;
  }

  abbrev pub Follows : JobRecord J → Option (JobRecord J) → Type 0
  Follows r o = (s : JobRecord J) × (o ≡ some s) × Evolves ops r s

  fresh-le : (r : JobRecord J) (e : JobEvent) → stale r e ≡ false → r.event_sequence ≤ e.sequence
  unfolding stale
  fresh-le r e h = ground arith

  allowed-or_same-⟶* : (t : JobState) (s : Option JobState) → allowed t s ≡ true → t ⟶* or_same t s
  unfolding allowed
  allowed-or_same-⟶* t none h = here
  allowed-or_same-⟶* t (some u) h = allowed-⟶* t u h

  job_step-Follows : (q : Request J) (r : JobRecord J) → Follows r (job_step ops q (some r)).0
  unfolding job_step
  job_step-Follows (upsert d) r = elim (Bool-cases (same_dispatch_identity ops r.dispatch d)) [
    | inr other ↦ rw other (r, refl, Evolves-refl r)
    | inl same ↦ rw same (elim (Bool-cases (is_terminal r.state)) [
      | inl ended ↦ rw ended (r, refl, Evolves-refl r)
      | inr live ↦ rw live (
        record r { dispatch = d },
        refl,
        record { path = here; monotone = omega arith; identity = same },
      )
    ])
  ]
  job_step-Follows (set_state k s) r = elim (Bool-cases (can_transition_to r.state s)) [
    | inl way ↦ rw way (
      record r { state = s },
      refl,
      record {
        path = allowed-⟶* r.state s way;
        monotone = omega arith;
        identity = same_dispatch_identity_refl ops r.dispatch;
      },
    )
    | inr no_way ↦ rw no_way (r, refl, Evolves-refl r)
  ]
  job_step-Follows (set_prompt k p) r = (
    record r { prompt_id = some p },
    refl,
    record {
      path = here;
      monotone = omega arith;
      identity = same_dispatch_identity_refl ops r.dispatch;
    },
  )
  job_step-Follows (set_pending e s) r = elim (Bool-cases (stale r e)) [
    | inl old ↦ rw old (r, refl, Evolves-refl r)
    | inr new ↦ rw new (elim (Bool-cases (allowed r.state s)) [
      | inr no_way ↦ rw no_way (r, refl, Evolves-refl r)
      | inl way ↦ rw way (
        record r { state = or_same r.state s; event_sequence = e.sequence; pending_event = some e },
        refl,
        record {
          path = allowed-or_same-⟶* r.state s way;
          monotone = fresh-le r e new;
          identity = same_dispatch_identity_refl ops r.dispatch;
        },
      )
    ])
  ]
  job_step-Follows (clear_pending k n) r = elim (Bool-cases (r.event_sequence == n)) [
    | inl now ↦ rw now (
      record r { pending_event = none },
      refl,
      record {
        path = here;
        monotone = omega arith;
        identity = same_dispatch_identity_refl ops r.dispatch;
      },
    )
    | inr later ↦ rw later (r, refl, Evolves-refl r)
  ]

  pub job_run-OptionInv :
      (k : String) (mine : Request J → Bool) (qs : List (Request J)) (o : Option (JobRecord J))
      → ((q : Request J) → mine q ≡ true → target q ≡ k)
      → OptionInv k o
      → OptionInv k (job_run ops mine qs o)
  unfolding job_run
  job_run-OptionInv k mine [] o own h = h
  job_run-OptionInv k mine (q ∷ qs) o own h = elim (Bool-cases (mine q)) [
    | inl yes' ↦ rw yes' (job_run-OptionInv k mine qs (job_step ops q o).0 own (stepped yes'))
    | inr other ↦ rw other (job_run-OptionInv k mine qs o own h)
  ]
    where
      stepped : mine q ≡ true → OptionInv k (job_step ops q o).0
      stepped e =
          subst (λ t. OptionInv t (job_step ops q o).0) (own q e)
            (job_step-OptionInv q o (subst (λ t. OptionInv t o) (sym (own q e)) h))

  pub job_run-Follows :
      (mine : Request J → Bool) (qs : List (Request J)) (r : JobRecord J)
      → Follows r (job_run ops mine qs (some r))
  unfolding job_run
  job_run-Follows mine [] r = (r, refl, Evolves-refl r)
  job_run-Follows mine (q ∷ qs) r = elim (Bool-cases (mine q)) [
    | inl own ↦ rw own (onward (job_step-Follows q r) (λ s. job_run-Follows mine qs s))
    | inr other ↦ rw other (job_run-Follows mine qs r)
  ]
    where
      onward :
          Follows r (job_step ops q (some r)).0
          → ((s : JobRecord J) → Follows s (job_run ops mine qs (some s)))
          → Follows r (job_run ops mine qs (job_step ops q (some r)).0)
      onward (s, e, h) later =
          let (t, e', k) = later s in (t, ap (job_run ops mine qs) e ∙ e', Evolves-trans h k)
