-- ===== src/Hub/RateLimit/Isolation.antt =====
-- apps/nagisalake-hub/src/ratelimit.rs: what a check of one caller does to the bucket of another.
use nagisa_lake.Prelude.{
  ℕ, ◌+◌, ◌%◌, ◌^◌, ◌≤◌, ◌<◌, ◌≡◌, ◌⊎◌, ◌∙◌, refl, sym, subst, ap, String, Bool, true, false, none,
  some, List, ◌∷◌, ◌++◌, length, All, is_some, if◌then◌else◌, leb, arith, Option-cases, Bool-cases,
  inl, inr,
}
use nagisa_lake.Hub.Eviction.Lists.{erase_first-split}
use nagisa_lake.Hub.Eviction.Queue.{pop_oldest-oldest}
use nagisa_lake.Hub.Eviction.{pop_oldest}
use nagisa_lake.Hub.RateLimit.{F64, Quota, Bucket, Shard, consume, refilled, max_buckets_per_shard}
use nagisa_lake.Hub.RateLimit.Entries.{
  is_of, is_of_iff, find, replace, length-replace, find-passes, find-replace, find-replace_other,
  shard_slots, slot_holds, slot_holds-number,
}
use nagisa_lake.Hub.RateLimit.Tables.{record_access, evict_oldest, admit, check_shard}
use nagisa_lake.Hub.RateLimit.Bounds.{IsShard, consume-names, consume-sequence}

module _ {F : Type 0} (f : F64 F) (hash_of : String → String → ℕ) where
  buckets-record_access :
      (n h : ℕ) (sh : Shard F) → (record_access f hash_of n h sh).buckets ≡ sh.buckets
  unfolding record_access
  buckets-record_access n h sh = ground arith

  consume-is_of :
      (scope key : String) (now : ℕ) (q : Quota F) (b : Bucket F)
      → is_of scope key (consume f now q b).0 ≡ is_of scope key b
  unfolding is_of
  consume-is_of scope key now q b =
      let names = consume-names f hash_of now q b in rw (names.0, names.1)

  known :
      (scope key : String) (q : Quota F) (now : ℕ) (sh : Shard F) (b : Bucket F)
      → find (is_of scope key) sh.buckets ≡ some b
      → ((check_shard f hash_of scope key q now sh).0.buckets
          ≡ replace
              (is_of scope key)
              (consume f now q (record b { sequence = sh.next_sequence })).0
              sh.buckets)
        × ((check_shard f hash_of scope key q now sh).1
            ≡ (consume f now q (record b { sequence = sh.next_sequence })).1)
  unfolding check_shard
  known scope key q now sh b e = (
    rw e (buckets-record_access sh.next_sequence (hash_of scope key) _),
    rw (e, check_shard) refl,
  )

  known-passes :
      (scope key : String) (q : Quota F) (now : ℕ) (sh : Shard F) (b : Bucket F)
      → find (is_of scope key) sh.buckets ≡ some b
      → is_of scope key (consume f now q (record b { sequence = sh.next_sequence })).0 ≡ true
  unfolding is_of
  known-passes scope key q now sh b e =
      consume-is_of scope key now q (record b { sequence = sh.next_sequence })
      ∙ find-passes (is_of scope key) sh.buckets b e

  -- A write to the sequence number commutes with `consume`, which does not read it.
  consume-renumbered :
      (now n : ℕ) (q : Quota F) (b : Bucket F)
      → consume f now q (record b { sequence = n })
        ≡ (record ((consume f now q b).0) { sequence = n }, (consume f now q b).1)
  unfolding consume refilled
  consume-renumbered now n q b = ground arith

  -- A caller that has a bucket is judged by that bucket, whatever else the shard holds.
  -- Nothing is evicted for it, and its tokens are those that it had, credited for the time since.
  pub check_shard-known :
      (scope key : String) (q : Quota F) (now : ℕ) (sh : Shard F) (b : Bucket F)
      → find (is_of scope key) sh.buckets ≡ some b
      → ((check_shard f hash_of scope key q now sh).1 ≡ (consume f now q b).1)
        × (find (is_of scope key) (check_shard f hash_of scope key q now sh).0.buckets
            ≡ some (record ((consume f now q b).0) { sequence = sh.next_sequence }))
        × (length (check_shard f hash_of scope key q now sh).0.buckets ≡ length sh.buckets)
  check_shard-known scope key q now sh b e =
      let (table, decision) = known scope key q now sh b e in
      let renumbered = consume-renumbered now sh.next_sequence q b in
      let new = (consume f now q (record b { sequence = sh.next_sequence })).0 in
      let passes = known-passes scope key q now sh b e in
      (
        decision ∙ ap (λ r. r.1) renumbered,
        ap (find (is_of scope key)) table
            ∙ find-replace (is_of scope key) new sh.buckets passes (ap is_some e)
            ∙ ap (λ r. some r.0) renumbered,
        ap length table ∙ length-replace (is_of scope key) new sh.buckets,
      )

  admit-buckets :
      (scope key : String) (q : Quota F) (now n : ℕ) (sh : Shard F)
      → (admit f hash_of scope key q now n sh).0.buckets
        ≡ (consume f now q (record {
          scope = scope;
          key = key;
          tokens = q.capacity;
          last_seen = now;
          sequence = n;
        })).0
          ∷ (if leb max_buckets_per_shard (length sh.buckets)
              then pop_oldest (shard_slots hash_of) sh.buckets sh.order
              else (sh.buckets, sh.order)).0
  unfolding admit evict_oldest
  admit-buckets scope key q now n sh = ground arith

  fresh_table :
      (scope key : String) (q : Quota F) (now : ℕ) (sh : Shard F)
      → find (is_of scope key) sh.buckets ≡ none
      → (new : Bucket F) × (is_of scope key new ≡ true)
        × (new.sequence ≡ sh.next_sequence)
        × ((check_shard f hash_of scope key q now sh).0.buckets
            ≡ new
              ∷ (if leb max_buckets_per_shard (length sh.buckets)
                  then pop_oldest (shard_slots hash_of) sh.buckets sh.order
                  else (sh.buckets, sh.order)).0)
  unfolding check_shard
  fresh_table scope key q now sh e =
      let opened : Bucket F = record {
        scope = scope;
        key = key;
        tokens = q.capacity;
        last_seen = now;
        sequence = sh.next_sequence;
      } in
      (
        (consume f now q opened).0,
        consume-is_of scope key now q opened ∙ (is_of_iff scope key opened).1 (refl, refl),
        consume-sequence f hash_of now q opened,
        rw e (
            buckets-record_access sh.next_sequence (hash_of scope key)
              (admit f hash_of scope key q now sh.next_sequence
                (record sh { next_sequence = (sh.next_sequence + 1) % 2 ^ 64 })).0
            ∙ admit-buckets scope key q now sh.next_sequence
                (record sh { next_sequence = (sh.next_sequence + 1) % 2 ^ 64 })),
      )

  apart :
      (scope key other_scope other_key : String)
      → ¬ ((scope ≡ other_scope) × (key ≡ other_key))
      → (b : Bucket F) → is_of scope key b ≡ true
      → is_of other_scope other_key b ≡ false
  apart scope key s k differs b h = elim (Bool-cases (is_of s k b)) [
    | inl same ↦
        let (p, r) = (is_of_iff scope key b).0 h in
        let (p', r') = (is_of_iff s k b).0 same in absurd (differs (sym p ∙ p', sym r ∙ r'))
    | inr other ↦ other
  ]

  not_full :
      (buckets : List (Bucket F)) (p : Bucket F → Bool)
      → find p buckets ≡ none
      → (is_some (find p buckets) ≡ true) ⊎ (length buckets < max_buckets_per_shard)
      → leb max_buckets_per_shard (length buckets) ≡ false
  not_full buckets p e (inl there) = absurd (ground arith)
  not_full buckets p e (inr room) = ground arith

  -- A check leaves the bucket of every other caller as it was, unless the caller is new and its
  -- shard is full.
  pub check_shard-others :
      (scope key : String) (q : Quota F) (now : ℕ) (sh : Shard F) (other_scope other_key : String)
      → ¬ ((scope ≡ other_scope) × (key ≡ other_key))
      → (is_some (find (is_of scope key) sh.buckets) ≡ true)
        ⊎ (length sh.buckets < max_buckets_per_shard)
      → find (is_of other_scope other_key) (check_shard f hash_of scope key q now sh).0.buckets
        ≡ find (is_of other_scope other_key) sh.buckets
  unfolding find is_of
  check_shard-others scope key q now sh s k differs room =
      let spent : Bucket F → Bucket F =
        λ b. (consume f now q (record b { sequence = sh.next_sequence })).0 in
      let apart_from = apart scope key s k differs in
      elim (Option-cases (find (is_of scope key) sh.buckets)) [
        | inr (b, e) ↦
            ap (find (is_of s k)) (known scope key q now sh b e).0
            ∙ find-replace_other (is_of scope key) (is_of s k) (spent b) sh.buckets apart_from
                (apart_from (spent b) (known-passes scope key q now sh b e))
        | inl e ↦
            let (new, passes, number, table) = fresh_table scope key q now sh e in
            ap (find (is_of s k)) table
            ∙ rw (apart_from new passes, not_full sh.buckets (is_of scope key) e room)
      ]

  -- The bucket that a full shard loses.
  oldest_leaves :
      (sh : Shard F)
      → IsShard f hash_of sh
      → 0 < length sh.buckets
      → (before after : List (Bucket F)) × (oldest : Bucket F) × (sh.buckets
          ≡ before ++ (oldest ∷ after))
        × All (λ b. oldest.sequence < b.sequence) (before ++ after)
        × ((pop_oldest (shard_slots hash_of) sh.buckets sh.order).0 ≡ before ++ after)
  oldest_leaves sh s some_bucket =
      let (slot, held, popped, above) =
        pop_oldest-oldest (shard_slots hash_of) sh.buckets sh.order sh.next_sequence s.queued
          some_bucket in
      let (before, after, oldest, hit, same, rest) =
        erase_first-split (slot_holds hash_of slot) sh.buckets held in
      let left = popped ∙ rest in
      (
        before,
        after,
        oldest,
        same,
        subst (λ n. All (λ b. n < b.sequence) (before ++ after))
            (slot_holds-number hash_of slot oldest hit)
            (subst (All (λ b. slot.0 < b.sequence)) left above),
        left,
      )

  -- When a new caller meets a full shard whose queue covers its table, one bucket leaves, whose
  -- sequence number is below that of every other bucket; the others stay as they are, and the bucket
  -- of the caller joins them.
  pub check_shard-evicts_oldest :
      (scope key : String) (q : Quota F) (now : ℕ) (sh : Shard F)
      → IsShard f hash_of sh
      → find (is_of scope key) sh.buckets ≡ none
      → max_buckets_per_shard ≤ length sh.buckets
      → (before after : List (Bucket F)) × (oldest new : Bucket F) × (sh.buckets
          ≡ before ++ (oldest ∷ after))
        × All (λ b. oldest.sequence < b.sequence) (before ++ after)
        × (is_of scope key new ≡ true)
        × ((check_shard f hash_of scope key q now sh).0.buckets ≡ new ∷ (before ++ after))
  check_shard-evicts_oldest scope key q now sh s e full =
      let (new, passes, number, table) = fresh_table scope key q now sh e in
      let (before, after, oldest, same, above, left) = oldest_leaves sh s (omega arith) in
      let is_full : leb max_buckets_per_shard (length sh.buckets) ≡ true = ground arith in
      (before, after, oldest, new, same, above, passes, table ∙ rw is_full (ap (λ m. new ∷ m) left))
