-- ===== src/Hub/ReadCache/Runs.antt =====
-- Whole runs of one cache of apps/nagisalake-hub/src/hub/state.rs: its size and its answers.
use nagisa_lake.Prelude.{
  ℕ, suc, ◌+◌, ◌*◌, ◌^◌, ◌≤◌, ◌<◌, max, ◌≡◌, refl, subst, ◌∙◌, String, Bool, Option, List, [], ◌∷◌,
  length, retain, length-retain-le, if_both, arith, Option-cases, inl, inr, Dict, get, put, remove,
  Distinct-retain,
}
use nagisa_lake.Hub.Eviction.Queue.{IsQueued-retain}
use nagisa_lake.Hub.ReadCache.{TtlCache, new, lookup, insert, discard, keep_keys}
use nagisa_lake.Hub.ReadCache.Entries.{ReadCacheEntry, cache_slots, length-remove-le}
use nagisa_lake.Hub.ReadCache.Bounds.{IsCache, IsTable-remove, IsCache-insert}

-- The calls of the Hub on a cache, each under the write lock.
pub data Call (T : Type 0) : Type 0 where
  looked_up : (now : ℕ) → String → Call T
  inserted : (now : ℕ) → String → T → Call T
  discarded : String → Call T
  kept : (String → Bool) → Call T

module _ {T : Type 0} where
  unfoldable pub step : TtlCache T → Call T → TtlCache T
  unfolding lookup insert discard keep_keys
  step c (looked_up now k) = (lookup now k c).0
  step c (inserted now k v) = insert now k v c
  step c (discarded k) = discard k c
  step c (kept keep) = keep_keys keep c

  unfoldable pub run : TtlCache T → List (Call T) → TtlCache T
  unfolding step
  run c [] = c
  run c (call ∷ calls) = run (step c call) calls

  -- The same calls on a map without bounds, where each entry has the time at which it expires.
  unfoldable pub ideal_step : ℕ → Dict (T × ℕ) → Call T → Dict (T × ℕ)
  ideal_step ttl m (looked_up now k) = m
  ideal_step ttl m (inserted now k v) = put k (v, now + ttl) m
  ideal_step ttl m (discarded k) = remove k m
  ideal_step ttl m (kept keep) = retain (λ e. keep e.0) m

  unfoldable pub ideal_run : ℕ → Dict (T × ℕ) → List (Call T) → Dict (T × ℕ)
  unfolding ideal_step
  ideal_run ttl m [] = m
  ideal_run ttl m (call ∷ calls) = ideal_run ttl (ideal_step ttl m call) calls

  IsCache-remove :
      (k : String) (c : TtlCache T)
      → IsCache c
      → IsCache (record c { entries = remove k c.entries })
  IsCache-remove k c i = record {
    table = IsTable-remove k c.entries c.order c.next_seq i.table;
    some_room = i.some_room;
    few = omega (arith, i.few, length-remove-le k c.entries);
    short = i.short;
  }

  IsCache-retain :
      (keep : String × ReadCacheEntry T → Bool) (c : TtlCache T)
      → IsCache c
      → IsCache (record c { entries = retain keep c.entries })
  IsCache-retain keep c i = record {
    table = record {
      queued = IsQueued-retain cache_slots keep c.entries c.order c.next_seq i.table.queued;
      distinct = Distinct-retain keep c.entries i.table.distinct;
    };
    some_room = i.some_room;
    few = omega (arith, i.few, length-retain-le keep c.entries);
    short = i.short;
  }

  -- A cache that has seen at most `n` calls, of the capacity `bound`.
  record Within (bound n : ℕ) (c : TtlCache T) : Type 0 where
    pub good : IsCache c
    pub calls : c.next_seq ≤ n
    pub same : c.capacity ≡ bound

  Within-lookup :
      (bound n now : ℕ) (k : String) (c : TtlCache T)
      → Within bound n c
      → Within bound (suc n) (lookup now k c).0
  unfolding lookup
  Within-lookup bound n now k c w =
      let kept : Within bound (suc n) c = record {
        good = w.good;
        calls = omega (arith, w.calls);
        same = w.same;
      } in
      elim (Option-cases (get k c.entries)) [
        | inl e ↦ rw (e, lookup) kept
        | inr (entry, e) ↦
            rw (e, lookup)
              (if_both (λ (r : TtlCache T × Option T). Within bound (suc n) r.0) _ _ _
                (record {
                  good = IsCache-remove k c w.good;
                  calls = omega (arith, w.calls);
                  same = w.same;
                })
                kept)
      ]

  next_seq-insert :
      (now : ℕ) (k : String) (v : T) (c : TtlCache T)
      → ((insert now k v c).next_seq ≤ c.next_seq + 1) × ((insert now k v c).capacity ≡ c.capacity)
  unfolding insert
  next_seq-insert now k v c = (omega arith, refl)

  Within-step :
      (bound n : ℕ) (c : TtlCache T) (call : Call T)
      → suc n < 2 ^ 64
      → Within bound n c
      → Within bound (suc n) (step c call)
  unfolding step discard keep_keys
  Within-step bound n c (looked_up now k) small w = Within-lookup bound n now k c w
  Within-step bound n c (inserted now k v) small w =
      let next = next_seq-insert now k v c in
      record {
        good = IsCache-insert now k v c w.good (omega (arith, w.calls));
        calls = omega (arith, w.calls, next.0);
        same = next.1 ∙ w.same;
      }
  Within-step bound n c (discarded k) small w = record {
    good = IsCache-remove k c w.good;
    calls = omega (arith, w.calls);
    same = w.same;
  }
  Within-step bound n c (kept keep) small w = record {
    good = IsCache-retain (λ e. keep e.0) c w.good;
    calls = omega (arith, w.calls);
    same = w.same;
  }

  Within-run :
      (bound n : ℕ) (c : TtlCache T) (calls : List (Call T))
      → n + length calls < 2 ^ 64
      → Within bound n c
      → Within bound (n + length calls) (run c calls)
  unfolding run
  Within-run bound n c [] small w = subst (λ m. Within bound m c) (omega arith) w
  Within-run bound n c (call ∷ calls) small w =
      subst (λ m. Within bound m (run (step c call) calls)) (omega arith)
        (Within-run bound (suc n) (step c call) calls (omega arith)
          (Within-step bound n c call (omega arith) w))

  Within-new : (ttl capacity : ℕ) → Within (max capacity 1) 0 (new ttl capacity)
  unfolding new
  Within-new ttl capacity = record {
    good = record {
      table = record {
        queued = record { increasing = omega arith; covered = tt; unique = tt };
        distinct = tt;
      };
      some_room = omega arith;
      few = omega arith;
      short = omega arith;
    };
    calls = omega arith;
    same = refl;
  }

  -- Of a new cache, after any calls (fewer than 2^64, where the sequence numbers would start again):
  -- it holds at most as many entries as its capacity, which is at least one, and its queue at most
  -- twice as many slots.
  pub run-within_capacity :
      (ttl capacity : ℕ) (calls : List (Call T))
      → length calls < 2 ^ 64
      → (length (run (new ttl capacity) calls).entries ≤ max capacity 1)
        × (length (run (new ttl capacity) calls).order ≤ max capacity 1 * 2)
  run-within_capacity ttl capacity calls small =
      let w =
        Within-run (max capacity 1) 0 (new ttl capacity) calls (omega arith)
          (Within-new ttl capacity) in
      (omega (arith, w.good.few, w.same), omega (arith, w.good.short, w.same))
