-- ===== src/Hub/ReadCache.antt =====
-- apps/nagisalake-hub/src/hub/state.rs: the cache of what the Hub reads from its store. An `Instant`
-- or a `Duration` is its number of nanoseconds; the values, of other crates, are types.
use nagisa_lake.Prelude.{
  ℕ, zero, suc, ◌+◌, ◌-◌, ◌*◌, ◌%◌, ◌^◌, ◌≤◌, ◌<◌, max, ◌≡◌, String, Bool, true, false, not, ◌&&◌,
  ◌||◌, Option, none, some, List, [], ◌∷◌, ◌++◌, length, retain, any, if◌then◌else◌, ◌==◌, leb, ltb,
  ◌=ˢ◌, Dict, get, put, remove, is_some, codes,
}
use Prim.Native.String.{◌++◌ as join}
use nagisa_lake.Hub.Eviction.{pop_oldest, compacted}
use nagisa_lake.Hub.ReadCache.Entries.{ReadCacheEntry, cache_slots}
pub mod Entries
pub mod Bounds
pub mod Runs
pub mod Answers
pub mod Lasting
pub mod Tenants

module _ (T : Type 0) where
  pub record TtlCache : Type 0 where
    pub entries : Dict (ReadCacheEntry T)
    pub order : List (ℕ × String)
    pub next_seq : ℕ
    pub ttl : ℕ
    pub capacity : ℕ

module _ {T : Type 0} where
  unfoldable pub new : ℕ → ℕ → TtlCache T
  new ttl capacity = record {
    entries = [];
    order = [];
    next_seq = 0;
    ttl = ttl;
    capacity = max capacity 1;
  }

  -- An expired entry is removed when it is asked for.
  unfoldable pub lookup : ℕ → String → TtlCache T → TtlCache T × Option T
  lookup now key cache = elim (get key cache.entries) [
    | none ↦ (cache, none)
    | some entry ↦
        if leb entry.expires_at now
        then (record cache { entries = remove key cache.entries }, none)
        else (cache, some entry.value)
  ]

  -- `while let Some((seq, key)) = order.front()`, up to the first live slot.
  unfoldable pub drop_expired :
      ℕ → Dict (ReadCacheEntry T) → List (ℕ × String) → Dict (ReadCacheEntry T) × List (ℕ × String)
  drop_expired now entries [] = (entries, [])
  drop_expired now entries ((seq, key) ∷ order) =
      let without = drop_expired now (remove key entries) order in
      let skipped = drop_expired now entries order in
      elim (get key entries) [
        | none ↦ skipped
        | some entry ↦
            if entry.seq == seq
            then (if ltb now entry.expires_at then (entries, (seq, key) ∷ order) else without)
            else skipped
      ]

  unfoldable pub evict_oldest :
      Dict (ReadCacheEntry T) → List (ℕ × String) → Dict (ReadCacheEntry T) × List (ℕ × String)
  evict_oldest entries order = pop_oldest cache_slots entries order

  -- What `insert` makes of the cache before the entry itself goes in.
  unfoldable pub room_for : ℕ → String → TtlCache T → Dict (ReadCacheEntry T) × List (ℕ × String)
  unfolding drop_expired evict_oldest
  room_for now key cache =
      let live = drop_expired now cache.entries cache.order in
      if leb cache.capacity (length live.0) && not (is_some (get key live.0))
      then evict_oldest live.0 live.1
      else live

  unfoldable pub insert : ℕ → String → T → TtlCache T → TtlCache T
  unfolding room_for
  insert now key value cache =
      let room = room_for now key cache in
      let seq = cache.next_seq in
      let order = room.1 ++ ((seq, key) ∷ []) in
      let entries =
        put key (record { value = value; expires_at = now + cache.ttl; seq = seq }) room.0 in
      record cache {
        entries = entries;
        order =
            if ltb (cache.capacity * 2) (length order)
            then compacted cache_slots entries order
            else order;
        next_seq = (seq + 1) % 2 ^ 64;
      }

  unfoldable pub discard : String → TtlCache T → TtlCache T
  discard key cache = record cache { entries = remove key cache.entries }

  unfoldable pub keep_keys : (String → Bool) → TtlCache T → TtlCache T
  keep_keys keep cache = record cache { entries = retain (λ e. keep e.0) cache.entries }

-- `str::starts_with` and `str::ends_with`.
unfoldable pub starts_with : List ℕ → List ℕ → Bool
starts_with text [] = true
starts_with [] (c ∷ cs) = false
starts_with (d ∷ text) (c ∷ cs) = (d == c) && starts_with text cs

unfoldable pub same_codes : List ℕ → List ℕ → Bool
same_codes [] [] = true
same_codes (c ∷ cs) (d ∷ ds) = (c == d) && same_codes cs ds
same_codes _ _ = false

unfoldable pub ends_with : List ℕ → List ℕ → Bool
unfolding same_codes
ends_with [] suffix = same_codes [] suffix
ends_with (c ∷ cs) suffix = let later = ends_with cs suffix in same_codes (c ∷ cs) suffix || later

unfoldable pub read_cache_key : String → String → String
read_cache_key organization_id resource_id = join organization_id (join "\0" resource_id)

abbrev pub nanos_per_sec : ℕ
nanos_per_sec = 1000000000

-- The three caches, of jobs that have ended, of artifacts that are ready, and of who may use which
-- device.
pub record ReadCache (JobView ArtifactRecord DeviceAccess : Type 0) : Type 0 where
  pub terminal_jobs : TtlCache JobView
  pub ready_artifacts : TtlCache ArtifactRecord
  pub device_access : TtlCache (List DeviceAccess)

module _ {J R D : Type 0} where
  unfoldable pub default_cache : ReadCache J R D
  unfolding new
  default_cache = record {
    terminal_jobs = new (10 * nanos_per_sec) 1024;
    ready_artifacts = new (10 * nanos_per_sec) 1024;
    device_access = new (2 * nanos_per_sec) 2048;
  }

  unfoldable pub cached_job : ℕ → String → String → ReadCache J R D → ReadCache J R D × Option J
  unfolding lookup read_cache_key
  cached_job now organization_id job_id cache =
      let found = lookup now (read_cache_key organization_id job_id) cache.terminal_jobs in
      (record cache { terminal_jobs = found.0 }, found.1)

  unfoldable pub cache_job : ℕ → String → String → J → ReadCache J R D → ReadCache J R D
  unfolding insert read_cache_key
  cache_job now organization_id job_id value cache = record cache {
    terminal_jobs = insert now (read_cache_key organization_id job_id) value cache.terminal_jobs;
  }

  unfoldable pub cached_artifact :
      ℕ → String → String → ReadCache J R D → ReadCache J R D × Option R
  unfolding lookup read_cache_key
  cached_artifact now organization_id artifact_id cache =
      let found = lookup now (read_cache_key organization_id artifact_id) cache.ready_artifacts in
      (record cache { ready_artifacts = found.0 }, found.1)

  unfoldable pub cache_artifact : ℕ → String → String → R → ReadCache J R D → ReadCache J R D
  unfolding insert read_cache_key
  cache_artifact now organization_id artifact_id value cache = record cache {
    ready_artifacts =
        insert now (read_cache_key organization_id artifact_id) value cache.ready_artifacts;
  }

  unfoldable pub invalidate_cached_artifact : String → String → ReadCache J R D → ReadCache J R D
  unfolding discard read_cache_key
  invalidate_cached_artifact organization_id artifact_id cache = record cache {
    ready_artifacts = discard (read_cache_key organization_id artifact_id) cache.ready_artifacts;
  }

  unfoldable pub cached_device_access :
      ℕ → String → String → ReadCache J R D → ReadCache J R D × Option (List D)
  unfolding lookup read_cache_key
  cached_device_access now organization_id user_id cache =
      let found = lookup now (read_cache_key organization_id user_id) cache.device_access in
      (record cache { device_access = found.0 }, found.1)

  unfoldable pub cache_device_access :
      ℕ → String → String → List D → ReadCache J R D → ReadCache J R D
  unfolding insert read_cache_key
  cache_device_access now organization_id user_id value cache = record cache {
    device_access = insert now (read_cache_key organization_id user_id) value cache.device_access;
  }

  unfoldable pub invalidate_cached_device_access_for_user :
      String → ReadCache J R D → ReadCache J R D
  unfolding keep_keys ends_with
  invalidate_cached_device_access_for_user user_id cache =
      let suffix = join "\0" user_id in
      record cache {
        device_access =
            keep_keys (λ key. not (ends_with (codes key) (codes suffix))) cache.device_access;
      }

  unfoldable pub invalidate_cached_device_access_for_organization :
      String → ReadCache J R D → ReadCache J R D
  unfolding keep_keys starts_with
  invalidate_cached_device_access_for_organization organization_id cache =
      let prefix = join organization_id "\0" in
      record cache {
        device_access =
            keep_keys (λ key. not (starts_with (codes key) (codes prefix))) cache.device_access;
      }
