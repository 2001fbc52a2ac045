-- ===== src/Hub/RateLimit/Runs.antt =====
-- Whole runs of apps/nagisalake-hub/src/ratelimit.rs: its memory stays bounded.
use nagisa_lake.Prelude.{
  ℕ, zero, suc, ◌+◌, ◌*◌, ◌^◌, ◌≤◌, ◌<◌, ◌≡◌, refl, String, List, [], ◌∷◌, length, All, arith,
  subst, if_both,
}
use nagisa_lake.Hub.Eviction.Lists.{All-map}
use nagisa_lake.Hub.RateLimit.{
  F64, Decision, Shard, RateLimiter, Limits, max_buckets_per_shard, max_buckets, shard_count,
}
use nagisa_lake.Hub.RateLimit.Tables.{
  empty_shard, shards_of, new_shards, new, reset_shard, evict_idle_shard, evict_idle_shards,
  shard_for, shard_at, write_at, check, reset, evict_idle, bucket_count, Call, checked, restored,
  swept, step, run,
}
use nagisa_lake.Hub.RateLimit.Bounds.{
  IsShard, IsShard-check, IsShard-reset, IsShard-evict_idle, check_shard-next,
}

module _ {F : Type 0} (f : F64 F) (hash_of : String → String → ℕ) where
  -- A shard that has counted at most `n` calls.
  record Within (n : ℕ) (sh : Shard F) : Type 0 where
    pub good : IsShard f hash_of sh
    pub calls : sh.next_sequence ≤ n

  Within-empty : (n : ℕ) → Within n empty_shard
  Within-empty n = record {
    good = record {
      queued = record { increasing = omega arith; covered = tt; unique = tt };
      few = omega arith;
      short = omega arith;
    };
    calls = omega arith;
  }

  Within-suc : (n : ℕ) (sh : Shard F) → Within n sh → Within (suc n) sh
  Within-suc n sh w = record { good = w.good; calls = omega (arith, w.calls) }

  All-shard_at :
      (n i : ℕ) (shards : List (Shard F))
      → All (Within n) shards
      → Within n (shard_at f hash_of i shards)
  All-shard_at n i [] h = Within-empty n
  All-shard_at n zero (sh ∷ shards) h = h.0
  All-shard_at n (suc i) (sh ∷ shards) h = All-shard_at n i shards h.1

  All-write_at :
      (n i : ℕ) (sh : Shard F) (shards : List (Shard F))
      → Within n sh
      → All (Within n) shards
      → All (Within n) (write_at f hash_of i sh shards)
  All-write_at n i sh [] h k = tt
  All-write_at n zero sh (old ∷ shards) h k = (h, k.1)
  All-write_at n (suc i) sh (old ∷ shards) h k = (k.0, All-write_at n i sh shards h k.1)

  length-write_at :
      (i : ℕ) (sh : Shard F) (shards : List (Shard F))
      → length (write_at f hash_of i sh shards) ≡ length shards
  length-write_at i sh [] = refl
  length-write_at zero sh (old ∷ shards) = refl
  length-write_at (suc i) sh (old ∷ shards) = omega (arith, length-write_at i sh shards)

  Within-evict_idle_shards :
      (now n : ℕ) (shards : List (Shard F))
      → All (Within n) shards
      → All (Within n) (evict_idle_shards f hash_of now shards).0
        × (length (evict_idle_shards f hash_of now shards).0 ≡ length shards)
  unfolding evict_idle_shards evict_idle_shard
  Within-evict_idle_shards now n [] h = (tt, refl)
  Within-evict_idle_shards now n (sh ∷ shards) h =
      let rest = Within-evict_idle_shards now n shards h.1 in
      (
        (record { good = IsShard-evict_idle f hash_of now sh h.0.good; calls = h.0.calls }, rest.0),
        omega (arith, rest.1),
      )

  -- What each call keeps: the number of shards, and shards within their bounds.
  record IsLimiter (n : ℕ) (l : RateLimiter F) : Type 0 where
    pub count : length l.shards ≡ shard_count
    pub within : All (Within n) l.shards

  IsLimiter-suc : (n : ℕ) (l : RateLimiter F) → IsLimiter n l → IsLimiter (suc n) l
  IsLimiter-suc n l i = record {
    count = i.count;
    within = All-map (λ sh w. Within-suc n sh w) l.shards i.within;
  }

  -- One shard is replaced by a good one.
  IsLimiter-write :
      (n i : ℕ) (sh : Shard F) (l : RateLimiter F)
      → Within n sh
      → IsLimiter n l
      → IsLimiter n (record l { shards = write_at f hash_of i sh l.shards })
  IsLimiter-write n i sh l w h = record {
    count = omega (arith, length-write_at i sh l.shards, h.count);
    within = All-write_at n i sh l.shards w h.within;
  }

  step-IsLimiter :
      (n : ℕ) (l : RateLimiter F) (c : Call f hash_of)
      → suc n < 2 ^ 64
      → IsLimiter n l
      → IsLimiter (suc n) (step f hash_of l c)
  unfolding step check reset evict_idle reset_shard
  step-IsLimiter n l (checked scope key q now) small h =
      let at_shard = shard_at f hash_of (shard_for f hash_of scope key) l.shards in
      let w = All-shard_at n (shard_for f hash_of scope key) l.shards h.within in
      if_both (λ (r : RateLimiter F × Decision). IsLimiter (suc n) r.0) l.enabled _ _
        (IsLimiter-write (suc n) (shard_for f hash_of scope key) _ l
          (record {
            good = IsShard-check f hash_of scope key q now at_shard w.good (omega (arith, w.calls));
            calls = omega (arith, w.calls, check_shard-next f hash_of scope key q now at_shard);
          })
          (IsLimiter-suc n l h))
        (IsLimiter-suc n l h)
  step-IsLimiter n l (restored scope key) small h =
      let w = All-shard_at n (shard_for f hash_of scope key) l.shards h.within in
      if_both (IsLimiter (suc n)) l.enabled _ _
        (IsLimiter-write (suc n) (shard_for f hash_of scope key) _ l
          (record {
            good = IsShard-reset f hash_of scope key _ w.good;
            calls = omega (arith, w.calls);
          })
          (IsLimiter-suc n l h))
        (IsLimiter-suc n l h)
  step-IsLimiter n l (swept now) small h =
      let left = Within-evict_idle_shards now n l.shards h.within in
      if_both (λ (r : RateLimiter F × ℕ). IsLimiter (suc n) r.0) l.enabled _ _
        (IsLimiter-suc n _ (record { count = omega (arith, left.1, h.count); within = left.0 }))
        (IsLimiter-suc n l h)

  run-IsLimiter :
      (n : ℕ) (l : RateLimiter F) (calls : List (Call f hash_of))
      → n + length calls < 2 ^ 64
      → IsLimiter n l
      → IsLimiter (n + length calls) (run f hash_of l calls)
  unfolding run
  run-IsLimiter n l [] small h = subst (λ m. IsLimiter m l) (omega arith) h
  run-IsLimiter n l (c ∷ calls) small h =
      subst (λ m. IsLimiter m (run f hash_of (step f hash_of l c) calls)) (omega arith)
        (run-IsLimiter (suc n) (step f hash_of l c) calls (omega arith)
          (step-IsLimiter n l c (omega arith) h))

  shards_of-Within : (n : ℕ) → All (Within 0) (shards_of n) × (length (shards_of {F = F} n) ≡ n)
  shards_of-Within zero = (tt, refl)
  shards_of-Within (suc n) =
      let rest = shards_of-Within n in ((Within-empty 0, rest.0), omega (arith, rest.1))

  new-IsLimiter : (limits : Limits F) → IsLimiter 0 (new limits)
  unfolding new new_shards
  new-IsLimiter limits =
      let h = shards_of-Within shard_count in record { count = h.1; within = h.0 }

  bucket_count-le :
      (n : ℕ) (shards : List (Shard F))
      → All (Within n) shards
      → bucket_count f hash_of shards ≤ length shards * max_buckets_per_shard
  unfolding bucket_count
  bucket_count-le n [] h = omega arith
  bucket_count-le n (sh ∷ shards) h = omega (arith, h.0.good.few, bucket_count-le n shards h.1)

  -- Of a new limiter, after any calls (fewer than 2^64, where the sequence numbers would start
  -- again): all shards together hold at most 100,000 buckets, and each shard's queue of accesses
  -- has at most twice as many slots as the shard may have buckets.
  pub run-bounded :
      (limits : Limits F) (calls : List (Call f hash_of))
      → length calls < 2 ^ 64
      → (bucket_count f hash_of (run f hash_of (new limits) calls).shards ≤ max_buckets)
        × All
            (λ sh. length sh.order ≤ max_buckets_per_shard * 2)
            (run f hash_of (new limits) calls).shards
  run-bounded limits calls small =
      let l = run f hash_of (new limits) calls in
      let h = run-IsLimiter 0 (new limits) calls (omega arith) (new-IsLimiter limits) in
      (
        omega (arith, bucket_count-le _ l.shards h.within, h.count),
        All-map (λ sh w. w.good.short) l.shards h.within,
      )
