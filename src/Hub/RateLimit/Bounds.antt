-- ===== src/Hub/RateLimit/Bounds.antt =====
-- The memory of apps/nagisalake-hub/src/ratelimit.rs is bounded, whoever calls and how often.
use nagisa_lake.Prelude.{
  Increasing, ℕ, ◌+◌, ◌*◌, ◌%◌, ◌^◌, ◌≤◌, ◌<◌, ◌≡◌, ◌⊎◌, refl, String, true, some, [], ◌∷◌, ◌++◌,
  length, All, length-retain-le, if◌then◌else◌, leb, ltb, arith, leb→le, ◌∙◌, Option-cases,
  Bool-cases, inl, inr,
}
use nagisa_lake.Hub.Eviction.{Unique, has_slot, IsQueued}
use nagisa_lake.Hub.Eviction.Lists.{
  length-erase_first-le, All-map, All-erase_first, Unique-erase_first,
}
use nagisa_lake.Hub.Eviction.Order.{has_slot-lt}
use nagisa_lake.Hub.Eviction.Queue.{
  IsQueued-pop_oldest, pop_oldest-lt, length-pop_oldest-le, IsQueued-retain, IsQueued-push,
  IsQueued-compacted, length-compacted-le,
}
use nagisa_lake.Hub.RateLimit.{F64, Quota, Bucket, Shard, consume, max_buckets_per_shard}
use nagisa_lake.Hub.RateLimit.Entries.{
  is_of, find, replace, slot_holds, slot_holds_intro, is_of_iff, shard_slots, find-passes,
  All-replace, Unique-replace, length-replace,
}
use nagisa_lake.Hub.RateLimit.Tables.{
  record_access, evict_oldest, admit, check_shard, reset_shard, evict_idle_shard,
}

module _ {F : Type 0} (f : F64 F) (hash_of : String → String → ℕ) where
  -- A shard whose queue covers its table, with both within their limits.
  pub record IsShard (sh : Shard F) : Type 0 where
    pub queued : IsQueued (shard_slots hash_of) sh.buckets sh.order sh.next_sequence
    pub few : length sh.buckets ≤ max_buckets_per_shard
    pub short : length sh.order ≤ max_buckets_per_shard * 2

  -- The same, for a table that the next slot of the queue completes.
  record IsPending (hash : ℕ) (sh : Shard F) (sequence : ℕ) : Type 0 where
    pub increasing : Increasing (shard_slots {F = F} hash_of).slot_number 0 sequence sh.order
    pub unique : Unique (λ b. b.sequence) sh.buckets
    pub covered :
        All
          (λ b.
            (has_slot (shard_slots hash_of) sh.order b ≡ true)
            ⊎ (slot_holds hash_of (sequence, hash) b ≡ true))
          sh.buckets
    pub few : length sh.buckets ≤ max_buckets_per_shard
    pub short : length sh.order ≤ max_buckets_per_shard * 2
    pub next : sh.next_sequence ≡ sequence + 1

  IsShard-record_access :
      (sequence hash : ℕ) (sh : Shard F)
      → IsPending hash sh sequence
      → IsShard (record_access f hash_of sequence hash sh)
  unfolding record_access
  IsShard-record_access sequence hash sh p =
      let order = sh.order ++ ((sequence, hash) ∷ []) in
      let pushed : IsQueued (shard_slots hash_of) sh.buckets order sh.next_sequence = rw p.next (
        IsQueued-push (shard_slots hash_of) sh.buckets sh.order sequence (sequence, hash)
          p.increasing refl p.unique p.covered) in
      elim (Bool-cases (ltb (max_buckets_per_shard * 2) (length order))) [
        | inl long ↦ rw long (record {
          queued =
              IsQueued-compacted (shard_slots hash_of) sh.buckets order sh.next_sequence pushed;
          few = p.few;
          short = omega (
            arith,
            p.few,
            length-compacted-le (shard_slots hash_of) sh.buckets order sh.next_sequence pushed,
          );
        })
        | inr fits ↦ rw fits (record { queued = pushed; few = p.few; short = ground arith })
      ]

  pub consume-sequence :
      (now : ℕ) (q : Quota F) (b : Bucket F) → (consume f now q b).0.sequence ≡ b.sequence
  unfolding consume
  consume-sequence now q b = ground arith

  pub consume-names :
      (now : ℕ) (q : Quota F) (b : Bucket F)
      → ((consume f now q b).0.scope ≡ b.scope) × ((consume f now q b).0.key ≡ b.key)
  unfolding consume
  consume-names now q b = ground arith

  pub older : (sh : Shard F) → IsShard sh → All (λ b. b.sequence < sh.next_sequence) sh.buckets
  older sh s =
      All-map
        (λ b h.
          has_slot-lt (shard_slots hash_of) 0 sh.next_sequence sh.order b s.queued.increasing h)
        sh.buckets s.queued.covered

  counted : Shard F → Shard F
  counted sh = record sh { next_sequence = (sh.next_sequence + 1) % 2 ^ 64 }

  IsPending-hit :
      (scope key : String) (q : Quota F) (now : ℕ) (sh : Shard F) (b : Bucket F)
      → IsShard sh
      → sh.next_sequence + 1 < 2 ^ 64
      → find (is_of scope key) sh.buckets ≡ some b
      → IsPending
          (hash_of scope key)
          (record (counted sh) {
            buckets =
                replace
                  (is_of scope key)
                  (consume f now q (record b { sequence = sh.next_sequence })).0
                  sh.buckets;
          })
          sh.next_sequence
  unfolding counted slot_holds is_of
  IsPending-hit scope key q now sh b s small e =
      let touched = record b { sequence = sh.next_sequence } in
      let new = (consume f now q touched).0 in
      let new_number = consume-sequence now q touched in
      let names = consume-names now q touched in
      let found = find-passes (is_of scope key) sh.buckets b e in
      record {
        increasing = s.queued.increasing;
        unique =
            Unique-replace (is_of scope key) new sh.buckets
              (All-map (λ c lt. omega (arith, new_number)) sh.buckets (older sh s)) s.queued.unique;
        covered =
            All-replace _ (is_of scope key) new sh.buckets
              (inr (
                slot_holds_intro hash_of sh.next_sequence scope key new
                  (names.0 ∙ ((is_of_iff scope key b).0 found).0)
                  (names.1 ∙ ((is_of_iff scope key b).0 found).1) new_number))
              (All-map (λ c h. inl h) sh.buckets s.queued.covered);
        few = omega (arith, s.few, length-replace (is_of scope key) new sh.buckets);
        short = s.short;
        next = omega arith;
      }

  -- Room is made in a full table.
  roomy : Shard F → Shard F
  roomy sh = if leb max_buckets_per_shard (length sh.buckets) then evict_oldest f hash_of sh else sh

  roomy-IsQueued :
      (sh : Shard F) (next : ℕ)
      → IsQueued (shard_slots hash_of) sh.buckets sh.order next
      → length sh.buckets ≤ max_buckets_per_shard
      → IsQueued (shard_slots hash_of) (roomy sh).buckets (roomy sh).order next
        × (length (roomy sh).buckets < max_buckets_per_shard)
        × (length (roomy sh).order ≤ length sh.order)
        × ((roomy sh).next_sequence ≡ sh.next_sequence)
  unfolding roomy evict_oldest
  roomy-IsQueued sh next queued few =
      elim (Bool-cases (leb max_buckets_per_shard (length sh.buckets))) [
        | inl full ↦ rw full (
          IsQueued-pop_oldest (shard_slots hash_of) sh.buckets sh.order next queued,
          omega (
            arith,
            leb→le max_buckets_per_shard (length sh.buckets) full,
            pop_oldest-lt (shard_slots hash_of) sh.buckets sh.order queued.covered,
          ),
          length-pop_oldest-le (shard_slots hash_of) sh.buckets sh.order,
          refl,
        )
        | inr room ↦ rw room (queued, ground arith, omega arith, refl)
      ]

  IsPending-miss :
      (scope key : String) (q : Quota F) (now : ℕ) (sh : Shard F)
      → IsShard sh
      → sh.next_sequence + 1 < 2 ^ 64
      → IsPending
          (hash_of scope key)
          (admit f hash_of scope key q now sh.next_sequence (counted sh)).0
          sh.next_sequence
  unfolding counted admit roomy
  IsPending-miss scope key q now sh s small =
      let opened : Bucket F = record {
        scope = scope;
        key = key;
        tokens = q.capacity;
        last_seen = now;
        sequence = sh.next_sequence;
      } in
      let new = (consume f now q opened).0 in
      let new_number = consume-sequence now q opened in
      let names = consume-names now q opened in
      let (queued, few, short, same) =
        roomy-IsQueued (counted sh) sh.next_sequence s.queued s.few in
      record {
        increasing = queued.increasing;
        unique = (
          All-map
              (λ c h.
                let lt =
                  has_slot-lt (shard_slots hash_of) 0 sh.next_sequence _ c queued.increasing h in
                omega (arith, new_number))
              _ queued.covered,
          queued.unique,
        );
        covered = (
          inr (slot_holds_intro hash_of sh.next_sequence scope key new names.0 names.1 new_number),
          All-map (λ c h. inl h) _ queued.covered,
        );
        few = omega (arith, few);
        short = omega (arith, short, s.short);
        next = omega (arith, same);
      }

  pub IsShard-check :
      (scope key : String) (q : Quota F) (now : ℕ) (sh : Shard F)
      → IsShard sh
      → sh.next_sequence + 1 < 2 ^ 64
      → IsShard (check_shard f hash_of scope key q now sh).0
  unfolding check_shard counted
  IsShard-check scope key q now sh s small =
      elim (Option-cases (find (is_of scope key) sh.buckets)) [
        | inl e ↦ rw e (
            IsShard-record_access sh.next_sequence (hash_of scope key) _
              (IsPending-miss scope key q now sh s small))
        | inr (b, e) ↦ rw e (
            IsShard-record_access sh.next_sequence (hash_of scope key) _
              (IsPending-hit scope key q now sh b s small e))
      ]

  pub IsShard-reset :
      (scope key : String) (sh : Shard F)
      → IsShard sh
      → IsShard (reset_shard f hash_of scope key sh)
  unfolding reset_shard
  IsShard-reset scope key sh s = record {
    queued = record {
      increasing = s.queued.increasing;
      covered = All-erase_first _ (is_of scope key) sh.buckets s.queued.covered;
      unique = Unique-erase_first (λ b. b.sequence) (is_of scope key) sh.buckets s.queued.unique;
    };
    few = omega (arith, s.few, length-erase_first-le (is_of scope key) sh.buckets);
    short = s.short;
  }

  pub IsShard-evict_idle :
      (now : ℕ) (sh : Shard F) → IsShard sh → IsShard (evict_idle_shard f hash_of now sh)
  unfolding evict_idle_shard
  IsShard-evict_idle now sh s = record {
    queued = IsQueued-retain (shard_slots hash_of) _ sh.buckets sh.order sh.next_sequence s.queued;
    few = omega (arith, s.few, length-retain-le _ sh.buckets);
    short = s.short;
  }

  -- A check counts itself once.
  pub check_shard-next :
      (scope key : String) (q : Quota F) (now : ℕ) (sh : Shard F)
      → (check_shard f hash_of scope key q now sh).0.next_sequence ≤ sh.next_sequence + 1
  unfolding check_shard record_access admit evict_oldest
  check_shard-next scope key q now sh = elim (Option-cases (find (is_of scope key) sh.buckets)) [
    | inl e ↦ rw e (ground arith)
    | inr (b, e) ↦ rw e (ground arith)
  ]
