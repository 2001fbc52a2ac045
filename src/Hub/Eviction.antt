-- ===== src/Hub/Eviction.antt =====
-- apps/nagisalake-hub: what ratelimit.rs and hub/state.rs do alike. Both bound a table by a queue
-- of slots in the order of access. A slot whose entry was touched again or removed stays in the
-- queue until it comes to the front, where it is skipped, or until the queue is compacted.
use nagisa_lake.Prelude.{
  Increasing, ℕ, ◌+◌, ◌<◌, ◌≤◌, ◌≡◌, ◌≢◌, Bool, true, false, List, [], ◌∷◌, any, retain, All,
  length, if◌then◌else◌,
}
pub mod Lists
pub mod Order
pub mod Queue

-- No two entries have the same sequence number.
abbrev pub Unique {ℓ} : {A : Type ℓ} → (A → ℕ) → List A → Type 0
Unique number [] = Unit
Unique number (a ∷ items) = All (λ b. number b ≢ number a) items × Unique number items

-- How a component reads its slots: which entry a slot stands for, and how that entry leaves.
pub record Slots {ℓ} (S : Type 0) (A : Type ℓ) : Type (ℓ ⊔ 1) where
  pub holds : S → A → Bool
  pub slot_number : S → ℕ
  pub number : A → ℕ
  pub discard : S → List A → List A
  pub holds-number : (s : S) (a : A) → holds s a ≡ true → slot_number s ≡ number a
  pub All-discard :
      (P : A → Type 0) (s : S) (items : List A) → All P items → All P (discard s items)
  pub Unique-discard :
      (s : S) (items : List A) → Unique number items → Unique number (discard s items)
  pub discard-gone :
      (s : S) (items : List A)
      → Unique number items
      → All (λ a. holds s a ≡ false) (discard s items)
  pub discard-lt :
      (s : S) (items : List A)
      → any (holds s) items ≡ true
      → length (discard s items) < length items

module _ {ℓ} {S : Type 0} {A : Type ℓ} (slots : Slots S A) where
  -- `while let Some(slot) = order.pop_front()`, up to the first slot that stands for an entry.
  unfoldable pub pop_oldest : List A → List S → List A × List S
  pop_oldest items [] = (items, [])
  pop_oldest items (s ∷ order) =
      let rest = pop_oldest items order in
      if any (slots.holds s) items then (slots.discard s items, order) else rest

  -- `order.retain(…)`.
  unfoldable pub compacted : List A → List S → List S
  compacted items order = retain (λ s. any (slots.holds s) items) order

  -- The queue has a slot of this entry.
  unfoldable pub has_slot : List S → A → Bool
  has_slot order a = any (λ s. slots.holds s a) order

  pub record IsQueued (items : List A) (order : List S) (next : ℕ) : Type 0 where
    pub increasing : Increasing slots.slot_number 0 next order
    pub covered : All (λ a. has_slot order a ≡ true) items
    pub unique : Unique slots.number items
