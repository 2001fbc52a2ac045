-- ===== src/Examples/Limits.antt =====
-- The rate limiter and its shards on concrete values: numbers are counted in thousandths.
use nagisa_lake.Prelude.{
  ℕ, ◌+◌, ◌-◌, ◌*◌, ◌/◌, ◌^◌, ◌≤◌, ◌<◌, min, max, ◌≡◌, refl, subst, length-append, inl, inr, none,
  some, [], ◌∷◌, ◌++◌, length, All, arith, String, leb, true, false, List, is_whitespace, codes,
  eq_iff, zero, suc,
}
use nagisa_lake.Hub.RateLimit.{
  F64, Quota, Bucket, Shard, Limits, quota, default_limits, allow, deny, max_buckets,
  max_buckets_per_shard, consume, refilled, retry_after,
}
use nagisa_lake.Hub.RateLimit.Entries.{is_of, find, shard_slots, slot_holds_intro}
use nagisa_lake.Hub.RateLimit.Tables.{
  new, run, bucket_count, checked, restored, check_shard, empty_shard,
}
use nagisa_lake.Hub.RateLimit.Runs.{run-bounded}
use nagisa_lake.Hub.RateLimit.Isolation.{
  check_shard-known, check_shard-others, check_shard-evicts_oldest,
}
use nagisa_lake.Hub.RateLimit.Bounds.{IsShard}
use nagisa_lake.Hub.Eviction.{IsQueued}
use nagisa_lake.Hub.Eviction.Queue.{IsQueued-push}
use nagisa_lake.Hub.Eviction.Order.{has_slot-lt}
use nagisa_lake.Hub.Eviction.Lists.{All-map}
use nagisa_lake.Hub.RateLimit.Address.{
  client_address, client_address-trusted, trim, trim_start, trim_end,
}

abbrev thousandths : F64 ℕ
thousandths = record {
  of_nat = λ n. n * 1000;
  add = λ a b. a + b;
  sub = λ a b. a - b;
  mul = λ a b. a * b / 1000;
  div = λ a b. a * 1000 / b;
  minimum = λ a b. min a b;
  maximum = λ a b. max a b;
  at_most = λ a b. leb a b;
  as_secs_f64 = λ n. n / 1000000;
  from_secs_f64 = λ a. a * 1000000;
}

abbrev hash_of : String → String → ℕ
hash_of scope key = length (codes scope) * 2 ^ 32 + length (codes key)

abbrev slow : Quota ℕ
slow = record { capacity = 2000; refill_per_second = 100 }

abbrev two_calls : List (nagisa_lake.Hub.RateLimit.Tables.Call thousandths hash_of)
two_calls = checked "login" "1.2.3.4" slow 0 ∷ checked "login" "5.6.7.8" slow 1 ∷ []

run-bounded_example :
    (bucket_count thousandths hash_of
        (run thousandths hash_of (new (default_limits thousandths)) two_calls).shards
      ≤ max_buckets)
    × All
        (λ sh. length sh.order ≤ max_buckets_per_shard * 2)
        (run thousandths hash_of (new (default_limits thousandths)) two_calls).shards
run-bounded_example =
    run-bounded thousandths hash_of (default_limits thousandths) two_calls (omega arith)

-- A caller that has spent one of its two tokens.
abbrev spent_bucket : Bucket ℕ
spent_bucket = record {
  scope = "login";
  key = "1.2.3.4";
  tokens = 1000;
  last_seen = 0;
  sequence = 0;
}

abbrev one_caller : Shard ℕ
one_caller = record {
  buckets = spent_bucket ∷ [];
  order = (0, hash_of "login" "1.2.3.4") ∷ [];
  next_sequence = 1;
}

-- The second call is allowed, and the third one would have to wait for ten seconds.
consume_test :
    ((consume thousandths 0 slow spent_bucket).1 ≡ allow)
    × ((consume thousandths 0 slow (record spent_bucket { tokens = 0 })).1 ≡ deny 10)
unfolding consume refilled retry_after
consume_test = (refl, refl)

check_shard-known_example :
    ((check_shard thousandths hash_of "login" "1.2.3.4" slow 5 one_caller).1
      ≡ (consume thousandths 5 slow spent_bucket).1)
    × (find
          (is_of "login" "1.2.3.4")
          (check_shard thousandths hash_of "login" "1.2.3.4" slow 5 one_caller).0.buckets
        ≡ some (record ((consume thousandths 5 slow spent_bucket).0) { sequence = 1 }))
    × (length (check_shard thousandths hash_of "login" "1.2.3.4" slow 5 one_caller).0.buckets ≡ 1)
unfolding find is_of
check_shard-known_example =
    check_shard-known thousandths hash_of "login" "1.2.3.4" slow 5 one_caller spent_bucket refl

check_shard-others_example :
    find
      (is_of "login" "1.2.3.4")
      (check_shard thousandths hash_of "login" "5.6.7.8" slow 5 one_caller).0.buckets
    ≡ find (is_of "login" "1.2.3.4") one_caller.buckets
check_shard-others_example =
    check_shard-others thousandths hash_of "login" "5.6.7.8" slow 5 one_caller "login" "1.2.3.4"
      (λ same. ground (arith, (eq_iff "5.6.7.8" "1.2.3.4").1 same.1)) (inr (omega arith))

-- The client writes an address of its own, and the proxy the one that it saw.
client_address-trusted_example :
    (client_address (some (codes "6.6.6.6" ++ (b',' ∷ codes " 10.0.0.1"))) none true
      ≡ trim (codes " 10.0.0.1"))
    × (client_address none none false ≡ client_address none none true)
unfolding trim trim_start trim_end is_whitespace
client_address-trusted_example =
    client_address-trusted (codes "6.6.6.6") (codes " 10.0.0.1") none none (ground arith) refl

-- A full shard, whose buckets were used one after another.
abbrev old_bucket : ℕ → Bucket ℕ
old_bucket n = record { scope = "old"; key = "host"; tokens = 0; last_seen = 0; sequence = n }

old_buckets : ℕ → List (Bucket ℕ)
old_buckets zero = []
old_buckets (suc n) = old_bucket n ∷ old_buckets n

old_slots : ℕ → List (ℕ × ℕ)
old_slots zero = []
old_slots (suc n) = old_slots n ++ ((n, hash_of "old" "host") ∷ [])

length-old_buckets : (n : ℕ) → length (old_buckets n) ≡ n
unfolding old_buckets
length-old_buckets zero = refl
length-old_buckets (suc n) = omega (arith, length-old_buckets n)

length-old_slots : (n : ℕ) → length (old_slots n) ≡ n
unfolding old_slots
length-old_slots zero = refl
length-old_slots (suc n) =
    omega (arith, length-old_slots n, length-append (old_slots n) ((n, hash_of "old" "host") ∷ []))

find-old_buckets : (n : ℕ) → find (is_of "login" "1.2.3.4") (old_buckets n) ≡ none
unfolding old_buckets find is_of
find-old_buckets zero = refl
find-old_buckets (suc n) = find-old_buckets n

old_buckets-IsQueued : (n : ℕ) → IsQueued (shard_slots hash_of) (old_buckets n) (old_slots n) n
unfolding old_buckets old_slots
old_buckets-IsQueued zero = record { increasing = omega arith; covered = tt; unique = tt }
old_buckets-IsQueued (suc n) =
    let q = old_buckets-IsQueued n in
    subst (IsQueued (shard_slots hash_of) _ _) (omega arith) (
      IsQueued-push (shard_slots hash_of) (old_buckets (suc n)) (old_slots n) n
        (n, hash_of "old" "host") q.increasing refl
        (
          All-map
              (λ b h.
                let lt = has_slot-lt (shard_slots hash_of) 0 n (old_slots n) b q.increasing h in
                omega arith)
              (old_buckets n) q.covered,
          q.unique,
        )
        (
          inr (slot_holds_intro hash_of n "old" "host" (old_bucket n) refl refl refl),
          All-map (λ b h. inl h) (old_buckets n) q.covered,
        ))

abbrev full_shard : Shard ℕ
full_shard = record {
  buckets = old_buckets max_buckets_per_shard;
  order = old_slots max_buckets_per_shard;
  next_sequence = max_buckets_per_shard;
}

full_shard-IsShard : IsShard thousandths hash_of full_shard
full_shard-IsShard = record {
  queued = old_buckets-IsQueued max_buckets_per_shard;
  few = omega (arith, length-old_buckets max_buckets_per_shard);
  short = omega (arith, length-old_slots max_buckets_per_shard);
}

check_shard-evicts_oldest_example :
    (before after : List (Bucket ℕ)) × (oldest new : Bucket ℕ) × (full_shard.buckets
      ≡ before ++ (oldest ∷ after))
    × All (λ b. oldest.sequence < b.sequence) (before ++ after)
    × (is_of "login" "1.2.3.4" new ≡ true)
    × ((check_shard thousandths hash_of "login" "1.2.3.4" slow 5 full_shard).0.buckets
        ≡ new ∷ (before ++ after))
check_shard-evicts_oldest_example =
    check_shard-evicts_oldest thousandths hash_of "login" "1.2.3.4" slow 5 full_shard
      full_shard-IsShard (find-old_buckets max_buckets_per_shard)
      (omega (arith, length-old_buckets max_buckets_per_shard))
