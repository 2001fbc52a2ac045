-- ===== src/Protocol/Equality.antt =====
-- The derived `PartialEq` of `JobEvent` in crates/nagisalake-protocol/src/messages.rs, field by field.
use mathlib.Core.Bool.{decide}
use nagisa_lake.Prelude.{
  ◌≡◌, String, Bool, true, false, ◌&&◌, Option, none, some, arith, ◌==◌, ◌=ˢ◌, =ˢ_refl, refl,
  eq_iff,
}
use nagisa_lake.Protocol.Float.{F32, f32_eq, is_finite, f32_eq_refl}
use nagisa_lake.Protocol.Messages.{JobEvent, JobEventKind, I64, pos, negsuc}

JobEventKind-discrete : Discrete JobEventKind
JobEventKind-discrete = hlevel

kind_eq : JobEventKind → JobEventKind → Bool
unfolding JobEventKind-discrete decide
kind_eq a b = decide (JobEventKind-discrete a b)

i64_eq : I64 → I64 → Bool
i64_eq (pos m) (pos n) = m == n
i64_eq (negsuc m) (negsuc n) = m == n
i64_eq _ _ = false

option_eq {ℓ} : {A : Type ℓ} → (A → A → Bool) → Option A → Option A → Bool
option_eq eq none none = true
option_eq eq (some a) (some b) = eq a b
option_eq eq _ _ = false

unfoldable pub event_eq : JobEvent → JobEvent → Bool
unfolding kind_eq i64_eq option_eq
event_eq a b =
    a.job_id =ˢ b.job_id
    && (a.attempt == b.attempt)
    && (a.sequence == b.sequence)
    && kind_eq a.kind b.kind
    && option_eq f32_eq a.progress b.progress
    && option_eq (λ s t. s =ˢ t) a.prompt_id b.prompt_id
    && a.message =ˢ b.message
    && i64_eq a.unix_ms b.unix_ms

-- `None` and finite fractions; `validate` refuses every other progress.
unfoldable pub finite_progress : JobEvent → Bool
finite_progress e = elim e.progress [ none ↦ true | some x ↦ is_finite x ]

kind_eq_refl : (k : JobEventKind) → kind_eq k k ≡ true
unfolding kind_eq decide
kind_eq_refl k = elim (JobEventKind-discrete k k) as (λ d. decide d ≡ true) [
  | yes _ ↦ refl
  | no n ↦ absurd (n refl)
]

i64_eq_refl : (x : I64) → i64_eq x x ≡ true
unfolding i64_eq
i64_eq_refl (pos n) = ground arith
i64_eq_refl (negsuc n) = ground arith

option_eq_refl {ℓ} :
    {A : Type ℓ} (eq : A → A → Bool) (o : Option A)
    → ((a : A) → o ≡ some a → eq a a ≡ true)
    → option_eq eq o o ≡ true
unfolding option_eq
option_eq_refl eq none h = refl
option_eq_refl eq (some a) h = h a refl

finite_progress_refl :
    (o : Option F32)
    → elim o [ none ↦ true | some x ↦ is_finite x ] ≡ true
    → option_eq f32_eq o o ≡ true
unfolding option_eq
finite_progress_refl none h = refl
finite_progress_refl (some x) h = f32_eq_refl x h

pub event_eq_refl : (e : JobEvent) → finite_progress e ≡ true → event_eq e e ≡ true
unfolding event_eq finite_progress
event_eq_refl e h = ground (
  arith,
  =ˢ_refl e.job_id,
  =ˢ_refl e.message,
  kind_eq_refl e.kind,
  i64_eq_refl e.unix_ms,
  finite_progress_refl e.progress h,
  option_eq_refl (λ (s : String) (t : String). s =ˢ t) e.prompt_id (λ s _. =ˢ_refl s),
)

-- Equal events carry the same sequence number.
pub event_eq-sequence : (a b : JobEvent) → event_eq a b ≡ true → a.sequence ≡ b.sequence
unfolding event_eq
event_eq-sequence a b h = ground arith

kind_eq-≡ : (a b : JobEventKind) → kind_eq a b ≡ true → a ≡ b
unfolding kind_eq decide
kind_eq-≡ a b = elim (JobEventKind-discrete a b) as (λ d. decide d ≡ true → a ≡ b) [
  | yes p ↦ λ _. p
  | no _ ↦ λ h. cc
]

kind_eq_trans :
    (a b c : JobEventKind) → kind_eq a b ≡ true → kind_eq b c ≡ true → kind_eq a c ≡ true
kind_eq_trans a b c p q = rw (kind_eq-≡ a b p) q

f32_eq_trans : (x y z : F32) → f32_eq x y ≡ true → f32_eq y z ≡ true → f32_eq x z ≡ true
unfolding f32_eq
f32_eq_trans x y z p q = ground arith

i64_eq_trans : (x y z : I64) → i64_eq x y ≡ true → i64_eq y z ≡ true → i64_eq x z ≡ true
unfolding i64_eq
i64_eq_trans x y z p q = ground arith

option_eq_trans {ℓ} :
    {A : Type ℓ} (eq : A → A → Bool)
    → ((a b c : A) → eq a b ≡ true → eq b c ≡ true → eq a c ≡ true)
    → (x y z : Option A) → option_eq eq x y ≡ true
    → option_eq eq y z ≡ true
    → option_eq eq x z ≡ true
unfolding option_eq
option_eq_trans eq t none none z p q = q
option_eq_trans eq t none (some b) z p q = cc
option_eq_trans eq t (some a) none z p q = cc
option_eq_trans eq t (some a) (some b) none p q = cc
option_eq_trans eq t (some a) (some b) (some c) p q = t a b c p q

text_eq_trans : (s t u : String) → (s =ˢ t) ≡ true → (t =ˢ u) ≡ true → (s =ˢ u) ≡ true
text_eq_trans s t u p q = rw ((eq_iff s t).0 p) q

&&-trans :
    (a b c x y z : Bool)
    → (a ≡ true → b ≡ true → c ≡ true)
    → (x ≡ true → y ≡ true → z ≡ true)
    → (a && x) ≡ true
    → (b && y) ≡ true
    → (c && z) ≡ true
&&-trans true true c x y z f g p q = rw (f refl refl) (g p q)
&&-trans true false c x y z f g p q = cc
&&-trans false b c x y z f g p q = cc

-- A derived equality is transitive.
pub event_eq_trans :
    (a b c : JobEvent) → event_eq a b ≡ true → event_eq b c ≡ true → event_eq a c ≡ true
unfolding event_eq
event_eq_trans a b c =
    &&-trans _ _ _ _ _ _
      (&&-trans _ _ _ _ _ _
        (&&-trans _ _ _ _ _ _
          (&&-trans _ _ _ _ _ _
            (&&-trans _ _ _ _ _ _
              (&&-trans _ _ _ _ _ _
                (&&-trans _ _ _ _ _ _ (text_eq_trans a.job_id b.job_id c.job_id)
                  (λ p q. ground arith))
                (λ p q. ground arith))
              (kind_eq_trans a.kind b.kind c.kind))
            (option_eq_trans f32_eq f32_eq_trans a.progress b.progress c.progress))
          (option_eq_trans _ text_eq_trans a.prompt_id b.prompt_id c.prompt_id))
        (text_eq_trans a.message b.message c.message))
      (i64_eq_trans a.unix_ms b.unix_ms c.unix_ms)
