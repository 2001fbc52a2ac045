-- ===== src/Hub/ReadCache/Entries.antt =====
-- The entries of the cache of apps/nagisalake-hub/src/hub/state.rs and the slots of its queue.
use nagisa_lake.Prelude.{
  ℕ, suc, ◌≤◌, ◌<◌, ◌≡◌, ◌≢◌, refl, sym, subst, String, Bool, true, false, ◌&&◌, none, some, [],
  ◌∷◌, any, All, length, ◌==◌, ◌=ˢ◌, Dict, get, put, remove, Distinct, is_some, arith, ==_iff,
  eq_iff, Bool-cases, inl, inr,
}
use nagisa_lake.Hub.Eviction.{Slots, Unique}

pub record ReadCacheEntry (T : Type 0) : Type 0 where
  pub value : T
  pub expires_at : ℕ
  pub seq : ℕ

module _ {V : Type 0} where
  pub All-remove :
      (P : String × V → Type 0) (k : String) (m : Dict V) → All P m → All P (remove k m)
  unfolding remove
  All-remove P k [] h = tt
  All-remove P k ((j, w) ∷ m) h = elim (Bool-cases (j =ˢ k)) [
    | inl hit ↦ rw hit (All-remove P k m h.1)
    | inr miss ↦ rw miss (h.0, All-remove P k m h.1)
  ]

  pub All-put :
      (P : String × V → Type 0) (k : String) (v : V) (m : Dict V)
      → P (k, v)
      → All P m
      → All P (put k v m)
  unfolding put
  All-put P k v [] p h = (p, tt)
  All-put P k v ((j, w) ∷ m) p h = elim (Bool-cases (j =ˢ k)) [
    | inl hit ↦ rw hit (p, h.1)
    | inr miss ↦ rw miss (h.0, All-put P k v m p h.1)
  ]

  pub length-remove-le : (k : String) (m : Dict V) → length (remove k m) ≤ length m
  unfolding remove
  length-remove-le k [] = omega arith
  length-remove-le k ((j, w) ∷ m) = ground (arith, length-remove-le k m)

  pub length-put-le : (k : String) (v : V) (m : Dict V) → length (put k v m) ≤ suc (length m)
  unfolding put
  length-put-le k v [] = omega arith
  length-put-le k v ((j, w) ∷ m) = ground (arith, length-put-le k v m)

  pub length-put_present :
      (k : String) (v : V) (m : Dict V) → is_some (get k m) ≡ true → length (put k v m) ≡ length m
  unfolding put get
  length-put_present k v [] h = cc
  length-put_present k v ((j, w) ∷ m) h = ground (arith, length-put_present k v m)

  module _ (number : String × V → ℕ) where
    pub Unique-remove : (k : String) (m : Dict V) → Unique number m → Unique number (remove k m)
    unfolding remove
    Unique-remove k [] h = tt
    Unique-remove k ((j, w) ∷ m) h = elim (Bool-cases (j =ˢ k)) [
      | inl hit ↦ rw hit (Unique-remove k m h.1)
      | inr miss ↦ rw miss (All-remove _ k m h.0, Unique-remove k m h.1)
    ]

    pub Unique-put :
        (k : String) (v : V) (m : Dict V)
        → All (λ e. number e ≢ number (k, v)) m
        → Unique number m
        → Unique number (put k v m)
    unfolding put
    Unique-put k v [] fresh h = (tt, tt)
    Unique-put k v ((j, w) ∷ m) fresh h = elim (Bool-cases (j =ˢ k)) [
      | inl hit ↦ rw hit (fresh.1, h.1)
      | inr miss ↦
          rw miss (All-put _ k v m (λ e. fresh.0 (sym e)) h.0, Unique-put k v m fresh.1 h.1)
    ]

module _ {T : Type 0} where
  -- `entries.get(&key).is_some_and(|entry| entry.seq == seq)`, where a key has one entry.
  unfoldable pub slot_holds : ℕ × String → String × ReadCacheEntry T → Bool
  slot_holds s e = (e.0 =ˢ s.1) && (e.1.seq == s.0)

  pub slot_holds-number :
      (s : ℕ × String) (e : String × ReadCacheEntry T) → slot_holds s e ≡ true → s.0 ≡ e.1.seq
  unfolding slot_holds
  slot_holds-number s e h = ground (arith, ==_iff e.1.seq s.0)

  pub slot_holds-put :
      (n t : ℕ) (k : String) (v : T)
      → slot_holds (n, k) (k, record { value = v; expires_at = t; seq = n }) ≡ true
  unfolding slot_holds
  slot_holds-put n t k v = ground (arith, ==_iff n n, eq_iff k k)

  pub slot_holds-gone :
      (s : ℕ × String) (m : Dict (ReadCacheEntry T))
      → All (λ e. slot_holds s e ≡ false) (remove s.1 m)
  unfolding slot_holds remove
  slot_holds-gone s [] = tt
  slot_holds-gone s ((j, w) ∷ m) = elim (Bool-cases (j =ˢ s.1)) [
    | inl hit ↦ rw hit (slot_holds-gone s m)
    | inr miss ↦ rw miss (rw miss refl, slot_holds-gone s m)
  ]

  pub length-remove-lt :
      (s : ℕ × String) (m : Dict (ReadCacheEntry T))
      → any (slot_holds s) m ≡ true
      → length (remove s.1 m) < length m
  unfolding slot_holds remove
  length-remove-lt s [] h = cc
  length-remove-lt s ((j, w) ∷ m) h = ground (arith, length-remove-lt s m, length-remove-le s.1 m)

  -- A slot whose key is gone or was written again stands for nothing.
  pub slot_holds-stale :
      (n : ℕ) (k : String) (m : Dict (ReadCacheEntry T))
      → Distinct m
      → ((e : ReadCacheEntry T) → get k m ≡ some e → (e.seq == n) ≡ false)
      → All (λ e. slot_holds (n, k) e ≡ false) m
  unfolding slot_holds get
  slot_holds-stale n k [] d h = tt
  slot_holds-stale n k ((j, w) ∷ m) d h = elim (Bool-cases (j =ˢ k)) [
    | inl hit ↦
        let none_left = subst (λ i. get i m ≡ none) ((eq_iff j k).0 hit) d.0 in
        rw hit (h w (rw hit refl), slot_holds-stale n k m d.1 (λ e q. absurd (ground arith)))
    | inr miss ↦ rw miss (refl, slot_holds-stale n k m d.1 (λ e q. h e (rw miss q)))
  ]

  abbrev pub cache_slots : Slots (ℕ × String) (String × ReadCacheEntry T)
  cache_slots = record {
    holds = slot_holds;
    slot_number = λ s. s.0;
    number = λ e. e.1.seq;
    discard = λ s items. remove s.1 items;
    holds-number = slot_holds-number;
    All-discard = λ P s items h. All-remove P s.1 items h;
    Unique-discard = λ s items h. Unique-remove (λ e. e.1.seq) s.1 items h;
    discard-gone = λ s items h. slot_holds-gone s items;
    discard-lt = length-remove-lt;
  }
