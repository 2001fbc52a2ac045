-- ===== src/Hub/RateLimit/Entries.antt =====
-- How apps/nagisalake-hub/src/ratelimit.rs finds, replaces and removes the buckets of a shard.
use nagisa_lake.Prelude.{
  ℕ, ◌≡◌, refl, String, Bool, true, false, ◌&&◌, Option, none, some, List, [], ◌∷◌, All,
  if◌then◌else◌, ◌==◌, ◌=ˢ◌, arith, ==_iff, Bool-cases, inl, inr, length, is_some, sym, subst, ◌≢◌,
  ◌↔◌, eq_iff,
}
use nagisa_lake.Hub.Eviction.{Slots, Unique}
use nagisa_lake.Hub.Eviction.Lists.{
  erase_first, erase_first-lt, All-erase_first, Unique-erase_first, erase_first-gone,
}
use nagisa_lake.Hub.RateLimit.{Bucket}

module _ {F : Type 0} where
  -- The closure of the lookups by caller.
  unfoldable pub is_of : String → String → Bucket F → Bool
  is_of scope key b = (b.scope =ˢ scope) && (b.key =ˢ key)

  pub is_of_iff :
      (scope key : String) (b : Bucket F)
      → (is_of scope key b ≡ true) ↔ ((b.scope ≡ scope) × (b.key ≡ key))
  unfolding is_of
  is_of_iff scope key b = ground (arith, eq_iff b.scope scope, eq_iff b.key key)

  -- `HashTable::find`.
  unfoldable pub find : (Bucket F → Bool) → List (Bucket F) → Option (Bucket F)
  find p [] = none
  find p (b ∷ buckets) = if p b then some b else find p buckets

  -- A write through `HashTable::find_mut`.
  unfoldable pub replace : (Bucket F → Bool) → Bucket F → List (Bucket F) → List (Bucket F)
  replace p new [] = []
  replace p new (b ∷ buckets) = if p b then new ∷ buckets else b ∷ replace p new buckets

  pub find-passes :
      (p : Bucket F → Bool) (buckets : List (Bucket F)) (b : Bucket F)
      → find p buckets ≡ some b
      → p b ≡ true
  unfolding find
  find-passes p [] b e = cc
  find-passes p (c ∷ buckets) b e = elim (Bool-cases (p c)) [
    | inl hit ↦ let q : c ≡ b = ground arith in subst (λ x. p x ≡ true) q hit
    | inr miss ↦ find-passes p buckets b (rw miss at e)
  ]

  pub find-replace :
      (p : Bucket F → Bool) (new : Bucket F) (buckets : List (Bucket F))
      → p new ≡ true
      → is_some (find p buckets) ≡ true
      → find p (replace p new buckets) ≡ some new
  unfolding find replace
  find-replace p new [] h e = cc
  find-replace p new (b ∷ buckets) h e = ground (arith, find-replace p new buckets)

  pub find-replace_other :
      (p other : Bucket F → Bool) (new : Bucket F) (buckets : List (Bucket F))
      → ((b : Bucket F) → p b ≡ true → other b ≡ false)
      → other new ≡ false
      → find other (replace p new buckets) ≡ find other buckets
  unfolding find replace
  find-replace_other p other new [] h e = refl
  find-replace_other p other new (b ∷ buckets) h e =
      ground (arith, h b, find-replace_other p other new buckets)

  pub All-replace :
      (P : Bucket F → Type 0) (p : Bucket F → Bool) (new : Bucket F) (buckets : List (Bucket F))
      → P new
      → All P buckets
      → All P (replace p new buckets)
  unfolding replace
  All-replace P p new [] h k = tt
  All-replace P p new (b ∷ buckets) h k = elim (Bool-cases (p b)) [
    | inl hit ↦ rw hit (h, k.1)
    | inr miss ↦ rw miss (k.0, All-replace P p new buckets h k.1)
  ]

  pub Unique-replace :
      (p : Bucket F → Bool) (new : Bucket F) (buckets : List (Bucket F))
      → All (λ b. b.sequence ≢ new.sequence) buckets
      → Unique (λ b. b.sequence) buckets
      → Unique (λ b. b.sequence) (replace p new buckets)
  unfolding replace
  Unique-replace p new [] h k = tt
  Unique-replace p new (b ∷ buckets) h k = elim (Bool-cases (p b)) [
    | inl hit ↦ rw hit (h.1, k.1)
    | inr miss ↦
        rw miss
          (All-replace _ p new buckets (λ e. h.0 (sym e)) k.0, Unique-replace p new buckets h.1 k.1)
  ]

  pub length-replace :
      (p : Bucket F → Bool) (new : Bucket F) (buckets : List (Bucket F))
      → length (replace p new buckets) ≡ length buckets
  unfolding replace
  length-replace p new [] = refl
  length-replace p new (b ∷ buckets) = ground (arith, length-replace p new buckets)

  module _ (hash_of : String → String → ℕ) where
    -- The slot `(sequence, hash)` stands for a bucket with both.
    unfoldable pub slot_holds : ℕ × ℕ → Bucket F → Bool
    slot_holds s b = (hash_of b.scope b.key == s.1) && (b.sequence == s.0)

    pub slot_holds_intro :
        (sequence : ℕ) (scope key : String) (b : Bucket F)
        → b.scope ≡ scope
        → b.key ≡ key
        → b.sequence ≡ sequence
        → slot_holds (sequence, hash_of scope key) b ≡ true
    unfolding slot_holds
    slot_holds_intro sequence scope key b h k e =
        let hashes : hash_of b.scope b.key ≡ hash_of scope key = cc in
        ground
          (arith, ==_iff b.sequence sequence, ==_iff (hash_of b.scope b.key) (hash_of scope key))

    pub slot_holds-number : (s : ℕ × ℕ) (b : Bucket F) → slot_holds s b ≡ true → s.0 ≡ b.sequence
    unfolding slot_holds
    slot_holds-number s b h = ground (arith, ==_iff b.sequence s.0)

    abbrev pub shard_slots : Slots (ℕ × ℕ) (Bucket F)
    shard_slots = record {
      holds = slot_holds;
      slot_number = λ s. s.0;
      number = λ b. b.sequence;
      discard = λ s items. erase_first (slot_holds s) items;
      holds-number = slot_holds-number;
      All-discard = λ P s items h. All-erase_first P (slot_holds s) items h;
      Unique-discard = λ s items h. Unique-erase_first (λ b. b.sequence) (slot_holds s) items h;
      discard-gone = λ s items h.
          erase_first-gone (λ b. b.sequence) (slot_holds s) s.0
            (λ b e. sym (slot_holds-number s b e)) items h;
      discard-lt = λ s items h. erase_first-lt (slot_holds s) items h;
    }
