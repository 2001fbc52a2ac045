-- ===== src/Hub/Eviction/Order.antt =====
-- The slots stand in the order of their numbers, so no two of them stand for one entry.
use nagisa_lake.Prelude.{
  Increasing, Increasing-le, ℕ, ◌+◌, ◌≤◌, ◌<◌, ◌≡◌, Bool, true, List, [], ◌∷◌, any, All, length,
  arith, Bool-cases, inl, inr, ◌==◌,
}
use nagisa_lake.Hub.Eviction.{Slots, has_slot}
use nagisa_lake.Hub.Eviction.Lists.{
  erase_first, erase_first-lt, any-erase_first, any-holds, All-zip, All-map,
}

module _ {ℓ} {S : Type 0} {A : Type ℓ} (slots : Slots S A) where
  Increasing-All :
      (low high : ℕ) (order : List S)
      → Increasing slots.slot_number low high order
      → All (λ s. low ≤ slots.slot_number s) order
  Increasing-All low high [] h = tt
  Increasing-All low high (s ∷ order) h = (
    h.0,
    All-map (λ t le. omega (arith, h.0)) order
        (Increasing-All (slots.slot_number s + 1) high order h.1),
  )

  -- Slots of different numbers stand for different entries.
  pub live-length-le :
      (low high : ℕ) (order : List S) (items : List A)
      → Increasing slots.slot_number low high order
      → All (λ s. any (slots.holds s) items ≡ true) order
      → length order ≤ length items
  live-length-le low high [] items h live = omega arith
  live-length-le low high (s ∷ order) items h live = omega (
    arith,
    live-length-le (slots.slot_number s + 1) high order (erase_first named items) h.1 (
        All-zip
          (λ t above held.
            any-erase_first (slots.holds t) named (λ a e. ground (arith, slots.holds-number t a))
              items held)
          order (Increasing-All (slots.slot_number s + 1) high order h.1) live.1),
    erase_first-lt named items (
        any-holds (slots.holds s) named (λ a e. ground (arith, slots.holds-number s a)) items
          live.0),
  )
    where
      named : A → Bool
      named a = slots.number a == slots.slot_number s

  -- The number of an entry with a slot is below the next one.
  pub has_slot-lt :
      (low high : ℕ) (order : List S) (a : A)
      → Increasing slots.slot_number low high order
      → has_slot slots order a ≡ true
      → slots.number a < high
  unfolding has_slot
  has_slot-lt low high [] a h e = cc
  has_slot-lt low high (s ∷ order) a h e = elim (Bool-cases (slots.holds s a)) [
    | inl hit ↦
        omega (arith, slots.holds-number s a hit, Increasing-le slots.slot_number _ high order h.1)
    | inr miss ↦ has_slot-lt (slots.slot_number s + 1) high order a h.1 (rw miss at e)
  ]

  pub has_slot-ge :
      (low high : ℕ) (order : List S) (a : A)
      → Increasing slots.slot_number low high order
      → has_slot slots order a ≡ true
      → low ≤ slots.number a
  unfolding has_slot
  has_slot-ge low high [] a h e = cc
  has_slot-ge low high (s ∷ order) a h e = elim (Bool-cases (slots.holds s a)) [
    | inl hit ↦ omega (arith, slots.holds-number s a hit, h.0)
    | inr miss ↦
        let later = has_slot-ge (slots.slot_number s + 1) high order a h.1 (rw miss at e) in
        omega (arith, h.0)
  ]
