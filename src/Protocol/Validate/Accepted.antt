-- ===== src/Protocol/Validate/Accepted.antt =====
-- What crates/nagisalake-protocol/src/validate.rs accepts, written without its order of checks.
use nagisa_lake.Prelude.{
  ℕ, ◌≡◌, ◌≤◌, ◌<◌, refl, ◌↔◌, String, true, false, not, List, [], ◌∷◌, ok, All, arith, Bool-cases,
  inl, inr, codes, is_blank, length, ltb, ◌==◌,
}
use nagisa_lake.Protocol.Messages.{
  Register, WorkerCapabilities, WorkflowCapability, protocol_version_number,
}
use nagisa_lake.Protocol.Validate.{
  required, identity_component, identity_char, offender, starts_with_dot, refuse_offender, invalid,
  must_not_be_empty,
}
use nagisa_lake.Protocol.Validate.Payloads.{
  validate_register, validate_worker_capabilities, validate_workflow_capability, validate_label,
  same_text, same_pair,
}
use nagisa_lake.Protocol.Validate.Loops.{
  Passes, Passes-and, Passes-fail_if, each-Passes, each_once-Passes, Once,
}

-- Not only white space.
abbrev pub IsNamed : String → Type 0
IsNamed s = is_blank (codes s) ≡ false

pub record IsIdentity (s : String) : Type 0 where
  pub named : IsNamed s
  pub short : length (codes s) ≤ 64
  pub closed : All (λ c. identity_char c ≡ true) (codes s)
  pub not_hidden : starts_with_dot (codes s) ≡ false

pub record IsCapable {J : Type 0} (c : WorkerCapabilities J) : Type 0 where
  pub works : 0 < c.parallelism
  pub serves : 0 < length c.workflows
  pub workflows : All (λ w. Passes (validate_workflow_capability w)) c.workflows
  pub installed_once : Once same_pair (λ w. (w.id, w.version)) c.workflows
  pub labelled : All (λ l. IsNamed l.0 × IsNamed l.1) c.labels

pub record IsRegister {J : Type 0} (r : Register J) : Type 0 where
  pub version : r.protocol_version ≡ 2
  pub namespace : IsIdentity r.namespace
  pub node_name : IsIdentity r.node_name
  pub worker_version : IsNamed r.worker_version
  pub bounded : length r.recovery_job_ids ≤ 1024
  pub recovered : All IsNamed r.recovery_job_ids
  pub recovered_once : Once same_text (λ id. id) r.recovery_job_ids
  pub capable : IsCapable r.capabilities

pub required-Passes : (f s : String) → Passes (required f s) ↔ IsNamed s
unfolding required
required-Passes f s = Passes-fail_if (is_blank (codes s)) (invalid f must_not_be_empty)

refuse_offender-Passes :
    (f : String) (cs : List ℕ)
    → Passes (refuse_offender f (offender cs)) ↔ All (λ c. identity_char c ≡ true) cs
unfolding refuse_offender offender
refuse_offender-Passes f [] = (λ h. tt, λ h. refl)
refuse_offender-Passes f (c ∷ cs) =
    let (g, k) = refuse_offender-Passes f cs in
    elim (Bool-cases (identity_char c)) [
      | inl e ↦ rw e (λ h. (refl, g h), λ h. k h.1)
      | inr e ↦ rw e (λ h. absurd (cc), λ h. absurd (cc (h.0)))
    ]

iff_of {ℓ κ ι} : {P : Type ℓ} {Q : Type κ} {R : Type ι} → P ↔ Q → (Q → R) → (R → Q) → P ↔ R
iff_of (f, g) h k = (λ p. h (f p), λ r. g (k r))

not_above : (n m : ℕ) → (ltb n m ≡ false) ↔ (m ≤ n)
not_above n m = ground arith

not_zero : (n : ℕ) → ((n == 0) ≡ false) ↔ (0 < n)
not_zero n = ground arith

-- What an accepted name is.
pub identity_component_iff : (f s : String) → Passes (identity_component f s) ↔ IsIdentity s
unfolding identity_component
identity_component_iff f s =
    iff_of
      (Passes-and _ _ (required-Passes f s) (
        Passes-and _ _ (iff_of (Passes-fail_if _ _) (not_above _ _).0 (not_above _ _).1)
          (Passes-and _ _ (refuse_offender-Passes f (codes s)) (Passes-fail_if _ _))))
      (λ h. let (a, (b, (c, d))) = h in record { named = a; short = b; closed = c; not_hidden = d })
      (λ r. (r.named, (r.short, (r.closed, r.not_hidden))))

label-Passes : (l : String × String) → Passes (validate_label l) ↔ (IsNamed l.0 × IsNamed l.1)
unfolding validate_label
label-Passes l = Passes-and _ _ (required-Passes _ _) (required-Passes _ _)

All-iff {ℓ} :
    {A : Type ℓ} {P Q : A → Type 0} → ((x : A) → P x ↔ Q x) → (xs : List A) → All P xs ↔ All Q xs
All-iff h [] = (λ _. tt, λ _. tt)
All-iff h (x ∷ xs) =
    let (f, g) = All-iff h xs in (λ a. ((h x).0 a.0, f a.1), λ a. ((h x).1 a.0, g a.1))

pub validate_worker_capabilities_iff :
    {J : Type 0} (c : WorkerCapabilities J) → Passes (validate_worker_capabilities c) ↔ IsCapable c
unfolding validate_worker_capabilities
validate_worker_capabilities_iff c =
    iff_of
      (Passes-and _ _ (iff_of (Passes-fail_if _ _) (not_zero _).0 (not_zero _).1) (
        Passes-and _ _ (iff_of (Passes-fail_if _ _) (not_zero _).0 (not_zero _).1) (
          Passes-and _ _
            (each_once-Passes same_pair (λ w. (w.id, w.version)) _ validate_workflow_capability
              (λ w. ok tt) c.workflows)
            (iff_of (each-Passes validate_label c.labels) (All-iff label-Passes c.labels).0
              (All-iff label-Passes c.labels).1))))
      (λ h.
        let (a, (b, ((w, o), l))) = h in
        record {
          works = a;
          serves = b;
          workflows = (first c.workflows).0 w;
          installed_once = o;
          labelled = l;
        })
      (λ r.
        (r.works, (r.serves, (((first c.workflows).1 r.workflows, r.installed_once), r.labelled))))
  where
    first :
        {J : Type 0} (ws : List (WorkflowCapability J))
        → All (λ w. Passes (validate_workflow_capability w) × Passes (ok tt)) ws
          ↔ All (λ w. Passes (validate_workflow_capability w)) ws
    first ws = All-iff (λ w. (λ p. p.0, λ p. (p, refl))) ws

-- A registration is accepted exactly if it is one that the description above admits.
pub validate_register_iff :
    {J : Type 0} (r : Register J) → Passes (validate_register r) ↔ IsRegister r
unfolding validate_register
validate_register_iff r =
    iff_of
      (Passes-and _ _
        (iff_of (Passes-fail_if _ _) (version r.protocol_version).0 (version r.protocol_version).1)
        (Passes-and _ _ (identity_component_iff _ _) (
          Passes-and _ _ (identity_component_iff _ _) (
            Passes-and _ _ (required-Passes _ _) (
              Passes-and _ _ (iff_of (Passes-fail_if _ _) (not_above _ _).0 (not_above _ _).1) (
                Passes-and _ _
                  (each_once-Passes same_text (λ id. id) _ (λ id. required "recovery_job_ids" id)
                    (λ id. ok tt) r.recovery_job_ids)
                  (validate_worker_capabilities_iff r.capabilities)))))))
      (λ h.
        let (v, (a, (b, (w, (n, ((i, o), c)))))) = h in
        record {
          version = v;
          namespace = a;
          node_name = b;
          worker_version = w;
          bounded = n;
          recovered = (ids r.recovery_job_ids).0 i;
          recovered_once = o;
          capable = c;
        })
      (λ d. (
        d.version,
        (
          d.namespace,
          (
            d.node_name,
            (
              d.worker_version,
              (d.bounded, (((ids r.recovery_job_ids).1 d.recovered, d.recovered_once), d.capable)),
            ),
          ),
        ),
      ))
  where
    version : (n : ℕ) → (not (n == protocol_version_number) ≡ false) ↔ (n ≡ 2)
    version n = ground arith

    ids :
        (xs : List String)
        → All (λ id. Passes (required "recovery_job_ids" id) × Passes (ok tt)) xs ↔ All IsNamed xs
    ids = All-iff (λ id. (
      λ p. (required-Passes "recovery_job_ids" id).0 p.0,
      λ p. ((required-Passes "recovery_job_ids" id).1 p, refl),
    ))
