-- ===== src/Core/Lifecycle.antt =====
-- The state machine of crates/nagisalake-core/src/lib.rs as a step relation, over whole histories.
use nagisa_lake.Prelude.{
  ◌≡◌, refl, ◌⊎◌, inl, inr, ◌↔◌, true, false, List, [], ◌∷◌, arith, Result, ok, err, Bool-cases,
}
use nagisa_lake.Core.{
  JobState, queued, received, accepted, running, uploading, completed, failed, cancelled,
  is_terminal, can_transition_to, JobRecord, transition, TransitionError,
}

-- The moves that `can_transition_to` allows from one state to another, as a step relation.
infix 40 ◌⟶◌ ◌⟶*◌
pub data ◌⟶◌ : JobState → JobState → Type 0 where
  bind : queued ⟶ received
  withdraw : queued ⟶ cancelled
  accept : received ⟶ accepted
  start : accepted ⟶ running
  upload : running ⟶ uploading
  complete : uploading ⟶ completed
  fail_received : received ⟶ failed
  fail_accepted : accepted ⟶ failed
  fail_running : running ⟶ failed
  fail_uploading : uploading ⟶ failed
  cancel_received : received ⟶ cancelled
  cancel_accepted : accepted ⟶ cancelled
  cancel_running : running ⟶ cancelled

pub data ◌⟶*◌ : JobState → JobState → Type 0 where
  here : {s : JobState} → s ⟶* s
  further : {s t u : JobState} → s ⟶ t → t ⟶* u → s ⟶* u

ruleset edges = (
  bind, withdraw, accept, start, upload, complete, fail_received, fail_accepted, fail_running,
  fail_uploading, cancel_received, cancel_accepted, cancel_running,
)

edge-allowed : {s t : JobState} → s ⟶ t → can_transition_to s t ≡ true
unfolding can_transition_to
edge-allowed bind = refl
edge-allowed withdraw = refl
edge-allowed accept = refl
edge-allowed start = refl
edge-allowed upload = refl
edge-allowed complete = refl
edge-allowed fail_received = refl
edge-allowed fail_accepted = refl
edge-allowed fail_running = refl
edge-allowed fail_uploading = refl
edge-allowed cancel_received = refl
edge-allowed cancel_accepted = refl
edge-allowed cancel_running = refl

allowed-edge : (s t : JobState) → can_transition_to s t ≡ true → (s ≡ t) ⊎ (s ⟶ t)
unfolding can_transition_to
allowed-edge s t h = grind (arith, edges)

same-allowed : (s : JobState) → can_transition_to s s ≡ true
unfolding can_transition_to
same-allowed s = ground arith

-- `can_transition_to` allows these steps, and staying where one is, and no more.
pub can_transition_to_iff : (s t : JobState) → (can_transition_to s t ≡ true) ↔ ((s ≡ t) ⊎ (s ⟶ t))
can_transition_to_iff s t = (allowed-edge s t, back)
  where
    back : (s ≡ t) ⊎ (s ⟶ t) → can_transition_to s t ≡ true
    back (inl e) = rw (← e) (same-allowed s)
    back (inr e) = edge-allowed e

-- No edge leaves a terminal state.
no_edge_from_terminal : {s t : JobState} → s ⟶ t → is_terminal s ≡ true → s ≡ t
unfolding is_terminal
no_edge_from_terminal bind h = cc
no_edge_from_terminal withdraw h = cc
no_edge_from_terminal accept h = cc
no_edge_from_terminal start h = cc
no_edge_from_terminal upload h = cc
no_edge_from_terminal complete h = cc
no_edge_from_terminal fail_received h = cc
no_edge_from_terminal fail_accepted h = cc
no_edge_from_terminal fail_running h = cc
no_edge_from_terminal fail_uploading h = cc
no_edge_from_terminal cancel_received h = cc
no_edge_from_terminal cancel_accepted h = cc
no_edge_from_terminal cancel_running h = cc

-- A terminal state can move to itself alone.
pub terminal-stays : (s t : JobState) → is_terminal s ≡ true → can_transition_to s t ≡ true → s ≡ t
unfolding can_transition_to is_terminal
terminal-stays s t h e = ground arith

-- What a caller that ignores a refusal is left with.
settled : {J : Type 0} → Result TransitionError (JobRecord J) → JobRecord J → JobRecord J
settled (ok r') r = r'
settled (err _) r = r

-- The requests of a history, in order; one that is refused leaves the record as it was.
unfoldable pub run_transitions : {J : Type 0} → JobRecord J → List JobState → JobRecord J
unfolding settled
run_transitions r [] = r
run_transitions r (t ∷ ts) = run_transitions (settled (transition r t) r) ts

pub append-⟶* : {s t u : JobState} → s ⟶* t → t ⟶* u → s ⟶* u
append-⟶* here q = q
append-⟶* (further e p) q = further e (append-⟶* p q)

pub allowed-⟶* : (s t : JobState) → can_transition_to s t ≡ true → s ⟶* t
allowed-⟶* s t h = from (allowed-edge s t h)
  where
    from : (s ≡ t) ⊎ (s ⟶ t) → s ⟶* t
    from (inl e) = rw (← e) here
    from (inr e) = further e here

settled-⟶* :
    {J : Type 0} (r : JobRecord J) (t : JobState) → r.state ⟶* (settled (transition r t) r).state
unfolding settled transition
settled-⟶* r t = elim (Bool-cases (can_transition_to r.state t)) [
  | inr no_way ↦ rw no_way here
  | inl way ↦ rw way (allowed-⟶* r.state t way)
]

-- Whatever transitions are requested of a record in whatever order, refused ones included, its
-- state afterwards is reached along steps of the relation.
pub run_transitions-⟶* :
    {J : Type 0} (r : JobRecord J) (ts : List JobState) → r.state ⟶* (run_transitions r ts).state
unfolding run_transitions
run_transitions-⟶* r [] = here
run_transitions-⟶* r (t ∷ ts) =
    append-⟶* (settled-⟶* r t) (run_transitions-⟶* (settled (transition r t) r) ts)

-- There is a way to `completed` from every state that is not terminal.
pub ⟶*-completed : (s : JobState) → is_terminal s ≡ false → s ⟶* completed
unfolding is_terminal
⟶*-completed completed h = here
⟶*-completed failed h = absurd (cc)
⟶*-completed cancelled h = absurd (cc)
⟶*-completed _ h = search (here, further, edges) depth 7

settled-terminal :
    {J : Type 0} (r : JobRecord J) (t : JobState)
    → is_terminal r.state ≡ true
    → settled (transition r t) r ≡ r
unfolding settled transition
settled-terminal r t h = ground (arith, terminal-stays r.state t h)

-- After a terminal state no history changes anything.
pub run_transitions-terminal :
    {J : Type 0} (r : JobRecord J) (ts : List JobState)
    → is_terminal r.state ≡ true
    → run_transitions r ts ≡ r
unfolding run_transitions
run_transitions-terminal r [] h = refl
run_transitions-terminal r (t ∷ ts) h =
    rw (settled-terminal r t h) (run_transitions-terminal r ts h)
