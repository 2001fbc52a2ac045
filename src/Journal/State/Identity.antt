-- ===== src/Journal/State/Identity.antt =====
-- `same_dispatch_identity` of crates/nagisalake-journal/src/state.rs as a relation.
use nagisa_lake.Prelude.{
  ◌≡◌, refl, true, List, [], ◌∷◌, arith, =ˢ_refl, eq_iff, codes, eq_ignore_ascii_case_refl,
  eq_ignore_ascii_case_trans, length,
}
use nagisa_lake.Protocol.Json.{JsonOps}
use nagisa_lake.Protocol.Messages.{DispatchJob, JobInput}
use nagisa_lake.Journal.State.{same_input, all_same_inputs, same_dispatch_identity}

same_input_refl : (a : JobInput) → same_input a a ≡ true
unfolding same_input
same_input_refl a = ground (
  arith,
  =ˢ_refl a.artifact_id,
  =ˢ_refl a.name,
  =ˢ_refl a.content_type,
  eq_ignore_ascii_case_refl (codes a.sha256),
)

same_input_trans :
    (a b c : JobInput) → same_input a b ≡ true → same_input b c ≡ true → same_input a c ≡ true
unfolding same_input
same_input_trans a b c p q = ground (
  arith,
  eq_iff a.artifact_id b.artifact_id,
  eq_iff a.name b.name,
  eq_iff a.content_type b.content_type,
  eq_ignore_ascii_case_trans (codes a.sha256) (codes b.sha256) (codes c.sha256),
)

all_same_inputs_refl : (xs : List JobInput) → all_same_inputs xs xs ≡ true
unfolding all_same_inputs
all_same_inputs_refl [] = refl
all_same_inputs_refl (a ∷ xs) = ground (arith, same_input_refl a, all_same_inputs_refl xs)

-- The lengths keep the shorter list from ending the comparison early.
all_same_inputs_trans :
    (xs ys zs : List JobInput)
    → length xs ≡ length ys
    → all_same_inputs xs ys ≡ true
    → all_same_inputs ys zs ≡ true
    → all_same_inputs xs zs ≡ true
unfolding all_same_inputs
all_same_inputs_trans [] ys zs n p q = refl
all_same_inputs_trans (a ∷ xs) [] zs n p q = absurd (omega arith)
all_same_inputs_trans (a ∷ xs) (b ∷ ys) [] n p q = refl
all_same_inputs_trans (a ∷ xs) (b ∷ ys) (c ∷ zs) n p q =
    ground (arith, same_input_trans a b c, all_same_inputs_trans xs ys zs)

module _ {J : Type 0} (ops : JsonOps J) where
  pub same_dispatch_identity_refl : (d : DispatchJob J) → same_dispatch_identity ops d d ≡ true
  unfolding same_dispatch_identity
  same_dispatch_identity_refl d = ground (
    arith,
    =ˢ_refl d.job_id,
    =ˢ_refl d.workflow_id,
    =ˢ_refl d.workflow_version,
    ops.json_eq_refl d.parameters,
    all_same_inputs_refl d.inputs,
  )

  pub same_dispatch_identity_trans :
      (a b c : DispatchJob J)
      → same_dispatch_identity ops a b ≡ true
      → same_dispatch_identity ops b c ≡ true
      → same_dispatch_identity ops a c ≡ true
  unfolding same_dispatch_identity
  same_dispatch_identity_trans a b c p q = ground (
    arith,
    eq_iff a.job_id b.job_id,
    eq_iff a.workflow_id b.workflow_id,
    eq_iff a.workflow_version b.workflow_version,
    ops.json_eq_trans a.parameters b.parameters c.parameters,
    all_same_inputs_trans a.inputs b.inputs c.inputs,
  )
