-- ===== src/Hub/Eviction/Queue.antt =====
-- The eviction queue keeps a slot of every entry: what popping, pushing and compacting do to it.
use nagisa_lake.Prelude.{
  Increasing, Increasing-low, Increasing-retain, Increasing-push, subst, ℕ, ◌+◌, ◌≤◌, ◌<◌, ◌≡◌,
  refl, ◌⊎◌, Bool, true, false, List, [], ◌∷◌, ◌++◌, any, retain, All, length, arith, Bool-cases,
  inl, inr,
}
use nagisa_lake.Hub.Eviction.{Slots, Unique, pop_oldest, compacted, has_slot, IsQueued}
use nagisa_lake.Hub.Eviction.Lists.{
  any-retain, any-append_single, any-none, All-passed, All-zip, All-map, All-retain, Unique-retain,
}
use nagisa_lake.Hub.Eviction.Order.{live-length-le, has_slot-ge}

module _ {ℓ} {S : Type 0} {A : Type ℓ} (slots : Slots S A) where
  -- Of the slots of an entry, one that stands for nothing is not missed.
  pub covered-tail :
      (s : S) (order : List S) (items : List A)
      → All (λ a. has_slot slots (s ∷ order) a ≡ true) items
      → All (λ a. slots.holds s a ≡ false) items
      → All (λ a. has_slot slots order a ≡ true) items
  unfolding has_slot
  covered-tail s order items h k = All-zip (λ a x y. ground arith) items h k

  pub Increasing-tail :
      (s : S) (order : List S) (items : List A) (next : ℕ)
      → IsQueued slots items (s ∷ order) next
      → Increasing slots.slot_number 0 next order
  Increasing-tail s order items next q =
      Increasing-low slots.slot_number 0 (slots.slot_number s + 1) next order (omega arith)
        q.increasing.1

  pub IsQueued-pop_oldest :
      (items : List A) (order : List S) (next : ℕ)
      → IsQueued slots items order next
      → IsQueued slots (pop_oldest slots items order).0 (pop_oldest slots items order).1 next
  unfolding pop_oldest
  IsQueued-pop_oldest items [] next q = q
  IsQueued-pop_oldest items (s ∷ order) next q = elim (Bool-cases (any (slots.holds s) items)) [
    | inl e ↦ rw e (record {
      increasing = Increasing-tail s order items next q;
      covered =
          covered-tail s order (slots.discard s items) (slots.All-discard _ s items q.covered)
            (slots.discard-gone s items q.unique);
      unique = slots.Unique-discard s items q.unique;
    })
    | inr e ↦ rw e (
        IsQueued-pop_oldest items order next (record {
          increasing = Increasing-tail s order items next q;
          covered = covered-tail s order items q.covered (any-none (slots.holds s) items e);
          unique = q.unique;
        }))
  ]

  -- A table that holds something loses an entry.
  pub pop_oldest-lt :
      (items : List A) (order : List S)
      → All (λ a. has_slot slots order a ≡ true) items
      → 0 < length items
      → length (pop_oldest slots items order).0 < length items
  unfolding pop_oldest has_slot
  pop_oldest-lt [] order h some_entry = absurd (omega arith)
  pop_oldest-lt (a ∷ items) [] h some_entry = absurd (ground arith)
  pop_oldest-lt (a ∷ items) (s ∷ order) h some_entry =
      elim (Bool-cases (any (slots.holds s) (a ∷ items))) [
        | inl e ↦ rw e (slots.discard-lt s (a ∷ items) e)
        | inr e ↦ rw e (
            pop_oldest-lt (a ∷ items) order
              (covered-tail s order (a ∷ items) h (any-none (slots.holds s) (a ∷ items) e))
              some_entry)
      ]

  -- What leaves is the entry of one slot, and it is older than all that stays.
  pub pop_oldest-oldest :
      (items : List A) (order : List S) (next : ℕ)
      → IsQueued slots items order next
      → 0 < length items
      → (s : S) × (any (slots.holds s) items ≡ true)
        × ((pop_oldest slots items order).0 ≡ slots.discard s items)
        × All (λ a. slots.slot_number s < slots.number a) (pop_oldest slots items order).0
  unfolding pop_oldest has_slot
  pop_oldest-oldest [] [] next q some_entry = absurd (omega arith)
  pop_oldest-oldest (a ∷ items) [] next q some_entry = absurd (ground arith)
  pop_oldest-oldest items (s ∷ order) next q some_entry =
      elim (Bool-cases (any (slots.holds s) items)) [
        | inl e ↦ rw e (
          s,
          e,
          refl,
          All-map
              (λ a h.
                let ge =
                  has_slot-ge slots (slots.slot_number s + 1) next order a q.increasing.1 h in
                omega arith)
              (slots.discard s items)
              (covered-tail s order (slots.discard s items) (slots.All-discard _ s items q.covered)
                (slots.discard-gone s items q.unique)),
        )
        | inr e ↦ rw e (
            pop_oldest-oldest items order next
              (record {
                increasing = Increasing-tail s order items next q;
                covered = covered-tail s order items q.covered (any-none (slots.holds s) items e);
                unique = q.unique;
              })
              some_entry)
      ]

  pub length-pop_oldest-le :
      (items : List A) (order : List S) → length (pop_oldest slots items order).1 ≤ length order
  unfolding pop_oldest
  length-pop_oldest-le items [] = omega arith
  length-pop_oldest-le items (s ∷ order) = ground (arith, length-pop_oldest-le items order)

  pub pop_oldest-All :
      (P : A → Type 0) (items : List A) (order : List S)
      → All P items
      → All P (pop_oldest slots items order).0
  unfolding pop_oldest
  pop_oldest-All P items [] h = h
  pop_oldest-All P items (s ∷ order) h = elim (Bool-cases (any (slots.holds s) items)) [
    | inl e ↦ rw e (slots.All-discard P s items h)
    | inr e ↦ rw e (pop_oldest-All P items order h)
  ]

  pub IsQueued-retain :
      (p : A → Bool) (items : List A) (order : List S) (next : ℕ)
      → IsQueued slots items order next
      → IsQueued slots (retain p items) order next
  IsQueued-retain p items order next q = record {
    increasing = q.increasing;
    covered = All-retain _ p items q.covered;
    unique = Unique-retain slots.number p items q.unique;
  }

  -- A slot of the next number comes last, for the one entry that has no other.
  pub IsQueued-push :
      (items : List A) (order : List S) (next : ℕ) (s : S)
      → Increasing slots.slot_number 0 next order
      → slots.slot_number s ≡ next
      → Unique slots.number items
      → All (λ a. (has_slot slots order a ≡ true) ⊎ (slots.holds s a ≡ true)) items
      → IsQueued slots items (order ++ (s ∷ [])) (next + 1)
  unfolding has_slot
  IsQueued-push items order next s inc e uniq cover = record {
    increasing =
        subst (λ n. Increasing slots.slot_number 0 n (order ++ (s ∷ []))) (omega arith)
          (Increasing-push slots.slot_number 0 next order s (omega arith) inc);
    covered =
        All-map (λ a h. ground (arith, any-append_single (λ t. slots.holds t a) order s)) items
          cover;
    unique = uniq;
  }

  -- An entry of the table keeps its slots when the queue is compacted.
  live-All :
      (items more : List A)
      → ((s : S) → any (slots.holds s) items ≡ true → any (slots.holds s) more ≡ true)
      → All (λ a. (s : S) → slots.holds s a ≡ true → any (slots.holds s) more ≡ true) items
  live-All [] more sub = tt
  live-All (a ∷ items) more sub =
      (λ s h. sub s (ground arith), live-All items more (λ s h. sub s (ground arith)))

  pub IsQueued-compacted :
      (items : List A) (order : List S) (next : ℕ)
      → IsQueued slots items order next
      → IsQueued slots items (compacted slots items order) next
  unfolding compacted has_slot
  IsQueued-compacted items order next q = record {
    increasing = Increasing-retain slots.slot_number _ 0 next order q.increasing;
    covered =
        All-zip
          (λ a h live.
            any-retain (λ s. slots.holds s a) (λ s. any (slots.holds s) items) order live h)
          items q.covered (live-All items items (λ s h. h));
    unique = q.unique;
  }

  pub length-compacted-le :
      (items : List A) (order : List S) (next : ℕ)
      → IsQueued slots items order next
      → length (compacted slots items order) ≤ length items
  unfolding compacted
  length-compacted-le items order next q =
      live-length-le slots 0 next _ items
        (Increasing-retain slots.slot_number _ 0 next order q.increasing)
        (All-passed (λ s. any (slots.holds s) items) order)
