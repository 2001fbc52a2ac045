-- ===== src/Hub/RateLimit.antt =====
-- apps/nagisalake-hub/src/ratelimit.rs: token buckets, the shards that hold them, and the limiter.
-- `f64` is a carrier with the operations that the file uses of it, `RandomState` a hash function.
-- An `Instant` or a `Duration` is its number of nanoseconds.
use nagisa_lake.Prelude.{
  ℕ, zero, suc, ◌+◌, ◌-◌, ◌*◌, ◌/◌, ◌%◌, ◌^◌, ◌≤◌, ◌<◌, max, ◌≡◌, String, Bool, true, false, not,
  ◌&&◌, Option, none, some, List, [], ◌∷◌, ◌++◌, length, retain, any, if◌then◌else◌, ◌==◌, leb, ltb,
  ◌=ˢ◌,
}
use nagisa_lake.Hub.Eviction.Lists.{erase_first}
pub mod Entries
pub mod Tables
pub mod Bounds
pub mod Runs
pub mod Isolation
pub mod Address

pub record F64 (F : Type 0) : Type 0 where
  pub of_nat : ℕ → F
  pub add : F → F → F
  pub sub : F → F → F
  pub mul : F → F → F
  pub div : F → F → F
  pub minimum : F → F → F
  pub maximum : F → F → F
  pub at_most : F → F → Bool
  pub as_secs_f64 : ℕ → F
  pub from_secs_f64 : F → ℕ

abbrev pub nanos_per_sec : ℕ
nanos_per_sec = 1000000000

abbrev pub idle_eviction : ℕ
idle_eviction = 3600 * nanos_per_sec

abbrev pub max_buckets : ℕ
max_buckets = 100000

abbrev pub shard_count : ℕ
shard_count = 16

abbrev pub max_buckets_per_shard : ℕ
max_buckets_per_shard = max_buckets / shard_count

pub record Quota (F : Type 0) : Type 0 where
  pub capacity : F
  pub refill_per_second : F

pub data Decision : Type 0 where
  allow : Decision
  deny : (retry_after_seconds : ℕ) → Decision

pub record Bucket (F : Type 0) : Type 0 where
  pub scope : String
  pub key : String
  pub tokens : F
  pub last_seen : ℕ
  pub sequence : ℕ

pub record Shard (F : Type 0) : Type 0 where
  pub buckets : List (Bucket F)
  pub order : List (ℕ × ℕ)
  pub next_sequence : ℕ

pub record Limits (F : Type 0) : Type 0 where
  pub login_per_ip : Quota F
  pub login_per_account : Quota F
  pub register_per_ip : Quota F
  pub refresh_per_ip : Quota F
  pub submit_per_org : Quota F
  pub oauth_per_ip : Quota F

pub record RateLimiter (F : Type 0) : Type 0 where
  pub limits : Limits F
  pub shards : List (Shard F)
  pub enabled : Bool

module _ {F : Type 0} (f : F64 F) where
  unfoldable pub quota : ℕ → F → Quota F
  quota capacity refill = record { capacity = f.of_nat capacity; refill_per_second = refill }

  -- One part in `n`, as the defaults write their rates.
  abbrev one_in : ℕ → F
  one_in n = f.div (f.of_nat 1) (f.of_nat n)

  unfoldable pub default_limits : Limits F
  unfolding quota
  default_limits = record {
    login_per_ip = quota 10 (one_in 6);
    login_per_account = quota 10 (one_in 30);
    register_per_ip = quota 3 (one_in 600);
    refresh_per_ip = quota 60 (f.of_nat 1);
    submit_per_org = quota 60 (f.of_nat 2);
    oauth_per_ip = quota 10 (one_in 10);
  }

  unfoldable pub retry_after : Quota F → F → ℕ
  retry_after q tokens =
      if f.at_most q.refill_per_second (f.of_nat 0)
      then 3600 * nanos_per_sec
      else f.from_secs_f64
          (f.div (f.maximum (f.sub (f.of_nat 1) tokens) (f.of_nat 0)) q.refill_per_second)

  -- What the bucket has once the time since its last access is credited.
  unfoldable pub refilled : ℕ → Quota F → Bucket F → F
  refilled now q b =
      f.minimum (f.add b.tokens (f.mul (f.as_secs_f64 (now - b.last_seen)) q.refill_per_second))
        q.capacity

  unfoldable pub consume : ℕ → Quota F → Bucket F → Bucket F × Decision
  unfolding refilled retry_after
  consume now q b =
      let tokens = refilled now q b in
      if f.at_most (f.of_nat 1) tokens
      then (record b { tokens = f.sub tokens (f.of_nat 1); last_seen = now }, allow)
      else (
        record b { tokens = tokens; last_seen = now },
        deny (max (retry_after q tokens / nanos_per_sec) 1),
      )
