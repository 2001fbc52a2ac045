-- ===== src/Hub/RateLimit/Tables.antt =====
-- The shards of apps/nagisalake-hub/src/ratelimit.rs and the limiter over them.
use nagisa_lake.Prelude.{
  ℕ, zero, suc, ◌+◌, ◌-◌, ◌*◌, ◌/◌, ◌%◌, ◌^◌, String, true, false, none, some, List, [], ◌∷◌, ◌++◌,
  length, retain, if◌then◌else◌, leb, ltb,
}
use nagisa_lake.Hub.Eviction.{pop_oldest, compacted}
use nagisa_lake.Hub.Eviction.Lists.{erase_first}
use nagisa_lake.Hub.RateLimit.{
  F64, Quota, Decision, allow, Shard, Limits, RateLimiter, default_limits, consume, idle_eviction,
  shard_count, max_buckets_per_shard,
}
use nagisa_lake.Hub.RateLimit.Entries.{is_of, find, replace, shard_slots}

abbrev pub empty_shard : {F : Type 0} → Shard F
empty_shard = record { buckets = []; order = []; next_sequence = 0 }

abbrev pub shards_of : {F : Type 0} → ℕ → List (Shard F)
shards_of zero = []
shards_of (suc n) = empty_shard ∷ shards_of n

unfoldable pub new_shards : {F : Type 0} → List (Shard F)
new_shards = shards_of shard_count

unfoldable pub new : {F : Type 0} → Limits F → RateLimiter F
unfolding new_shards
new limits = record { limits = limits; shards = new_shards; enabled = true }

unfoldable pub disabled : {F : Type 0} → F64 F → RateLimiter F
unfolding new_shards
disabled f = record { limits = default_limits f; shards = new_shards; enabled = false }

module _ {F : Type 0} (f : F64 F) (hash_of : String → String → ℕ) where
  unfoldable pub record_access : ℕ → ℕ → Shard F → Shard F
  record_access sequence hash sh =
      let order = sh.order ++ ((sequence, hash) ∷ []) in
      if ltb (max_buckets_per_shard * 2) (length order)
      then record sh { order = compacted (shard_slots hash_of) sh.buckets order }
      else record sh { order = order }

  unfoldable pub evict_oldest : Shard F → Shard F
  evict_oldest sh =
      let rest = pop_oldest (shard_slots hash_of) sh.buckets sh.order in
      record sh { buckets = rest.0; order = rest.1 }

  -- A caller without a bucket: room is made when the table is full, and a full bucket is opened.
  unfoldable pub admit : String → String → Quota F → ℕ → ℕ → Shard F → Shard F × Decision
  unfolding evict_oldest
  admit scope key q now sequence sh =
      let roomy = if leb max_buckets_per_shard (length sh.buckets) then evict_oldest sh else sh in
      let spent = consume f now q (record {
        scope = scope;
        key = key;
        tokens = q.capacity;
        last_seen = now;
        sequence = sequence;
      }) in
      (record roomy { buckets = spent.0 ∷ roomy.buckets }, spent.1)

  -- `check` inside the caller's shard.
  unfoldable pub check_shard : String → String → Quota F → ℕ → Shard F → Shard F × Decision
  unfolding admit record_access
  check_shard scope key q now sh =
      let sequence = sh.next_sequence in
      let counted = record sh { next_sequence = (sequence + 1) % 2 ^ 64 } in
      let decided : Shard F × Decision = elim (find (is_of scope key) sh.buckets) [
        | none ↦ admit scope key q now sequence counted
        | some b ↦
            let spent = consume f now q (record b { sequence = sequence }) in
            (record counted { buckets = replace (is_of scope key) spent.0 sh.buckets }, spent.1)
      ] in
      (record_access sequence (hash_of scope key) decided.0, decided.1)

  unfoldable pub reset_shard : String → String → Shard F → Shard F
  reset_shard scope key sh = record sh { buckets = erase_first (is_of scope key) sh.buckets }

  unfoldable pub evict_idle_shard : ℕ → Shard F → Shard F
  evict_idle_shard now sh = record sh {
    buckets = retain (λ b. ltb (now - b.last_seen) idle_eviction) sh.buckets;
  }

  -- The high bits of the hash choose the shard.
  unfoldable pub shard_for : String → String → ℕ
  shard_for scope key = hash_of scope key / 2 ^ 32 % shard_count

  -- The shard at an index, behind its lock.
  abbrev pub shard_at : ℕ → List (Shard F) → Shard F
  shard_at i [] = empty_shard
  shard_at zero (sh ∷ shards) = sh
  shard_at (suc i) (sh ∷ shards) = shard_at i shards

  abbrev pub write_at : ℕ → Shard F → List (Shard F) → List (Shard F)
  write_at i new [] = []
  write_at zero new (sh ∷ shards) = new ∷ shards
  write_at (suc i) new (sh ∷ shards) = sh ∷ write_at i new shards

  unfoldable pub check : RateLimiter F → String → String → Quota F → ℕ → RateLimiter F × Decision
  unfolding check_shard shard_for
  check l scope key q now =
      let i = shard_for scope key in
      let decided = check_shard scope key q now (shard_at i l.shards) in
      if l.enabled
      then (record l { shards = write_at i decided.0 l.shards }, decided.1)
      else (l, allow)

  unfoldable pub reset : RateLimiter F → String → String → RateLimiter F
  unfolding reset_shard shard_for
  reset l scope key =
      let i = shard_for scope key in
      if l.enabled
      then record l { shards = write_at i (reset_shard scope key (shard_at i l.shards)) l.shards }
      else l

  -- Each shard in turn, with the number of buckets dropped.
  unfoldable pub evict_idle_shards : ℕ → List (Shard F) → List (Shard F) × ℕ
  unfolding evict_idle_shard
  evict_idle_shards now [] = ([], 0)
  evict_idle_shards now (sh ∷ shards) =
      let rest = evict_idle_shards now shards in
      let left = evict_idle_shard now sh in
      (left ∷ rest.0, (length sh.buckets - length left.buckets) + rest.1)

  unfoldable pub evict_idle : RateLimiter F → ℕ → RateLimiter F × ℕ
  unfolding evict_idle_shards
  evict_idle l now =
      let left = evict_idle_shards now l.shards in
      if l.enabled then (record l { shards = left.0 }, left.1) else (l, 0)

  unfoldable pub bucket_count : List (Shard F) → ℕ
  bucket_count [] = 0
  bucket_count (sh ∷ shards) = length sh.buckets + bucket_count shards

  -- The calls of the Hub, in the order in which they take the lock of their shard.
  pub data Call : Type 0 where
    checked : String → String → Quota F → (now : ℕ) → Call
    restored : String → String → Call
    swept : (now : ℕ) → Call

  unfoldable pub step : RateLimiter F → Call → RateLimiter F
  unfolding check reset evict_idle
  step l (checked scope key q now) = (check l scope key q now).0
  step l (restored scope key) = reset l scope key
  step l (swept now) = (evict_idle l now).0

  unfoldable pub run : RateLimiter F → List Call → RateLimiter F
  unfolding step
  run l [] = l
  run l (c ∷ calls) = run (step l c) calls
