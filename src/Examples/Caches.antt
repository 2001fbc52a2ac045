-- ===== src/Examples/Caches.antt =====
-- The caches of the Hub on concrete values.
use nagisa_lake.Prelude.{
  ℕ, ◌≤◌, ◌<◌, ◌≡◌, refl, String, none, some, List, [], ◌∷◌, length, arith, get, put, remove,
}
use nagisa_lake.Hub.ReadCache.{
  TtlCache, new, lookup, insert, room_for, drop_expired, evict_oldest, ReadCache, default_cache,
  cached_device_access, cache_device_access, invalidate_cached_device_access_for_user,
  invalidate_cached_device_access_for_organization,
}
use nagisa_lake.Hub.ReadCache.Entries.{slot_holds}
use nagisa_lake.Hub.Eviction.{pop_oldest, compacted}
use nagisa_lake.Hub.ReadCache.Runs.{
  Call, inserted, looked_up, step, run, ideal_run, run-within_capacity,
}
use nagisa_lake.Hub.ReadCache.Answers.{run-answers}
use nagisa_lake.Hub.ReadCache.Lasting.{IsSparing, AreSparing, lookup-inserted}
use nagisa_lake.Hub.ReadCache.Tenants.{invalidated_access}

-- Three entries for a cache of two, which evicts the first.
abbrev three_inserts : List (Call ℕ)
three_inserts = inserted 0 "a" 1 ∷ inserted 1 "b" 2 ∷ inserted 2 "c" 3 ∷ []

run-within_capacity_example :
    (length (run (new 10 2) three_inserts).entries ≤ 2)
    × (length (run (new 10 2) three_inserts).order ≤ 4)
run-within_capacity_example = run-within_capacity 10 2 three_inserts (omega arith)

oldest_evicted :
    ((lookup 3 "a" (run (new 10 2) three_inserts)).1 ≡ none)
    × ((lookup 3 "c" (run (new 10 2) three_inserts)).1 ≡ some 3)
    × ((lookup 12 "c" (run (new 10 2) three_inserts)).1 ≡ none)
unfolding lookup new run step insert room_for drop_expired evict_oldest pop_oldest slot_holds
    compacted get put remove
oldest_evicted = (refl, refl, refl)

run-answers_example : (t : ℕ) × (get "c" (ideal_run 10 [] three_inserts) ≡ some (3, t)) × (3 < t)
run-answers_example = run-answers 10 2 three_inserts 3 "c" 3 oldest_evicted.1

abbrev empty_cache : TtlCache ℕ
empty_cache = new 10 2

-- One more entry, and a lookup.
abbrev in_between : List (Call ℕ)
in_between = inserted 1 "b" 8 ∷ looked_up 2 "a" ∷ []

spared : AreSparing "a" 10 (insert 0 "a" 7 empty_cache) in_between
unfolding AreSparing IsSparing new insert room_for drop_expired compacted get put step
spared = ((omega arith, refl, omega arith), (omega arith, tt))

lookup-inserted_example : (lookup 5 "a" (run (insert 0 "a" 7 empty_cache) in_between)).1 ≡ some 7
unfolding new
lookup-inserted_example = lookup-inserted 0 5 "a" 7 empty_cache in_between spared (omega arith)

abbrev org : String
org = "org"

-- What a user may use is cached, and then invalidated.
abbrev with_access : ReadCache ℕ ℕ ℕ
with_access = cache_device_access 0 org "user" (4 ∷ []) default_cache

invalidated_access_example :
    ((cached_device_access 1 org "user"
        (invalidate_cached_device_access_for_organization org with_access)).1
      ≡ none)
    × ((cached_device_access 1 org "user"
          (invalidate_cached_device_access_for_user "user" with_access)).1
        ≡ none)
invalidated_access_example = invalidated_access 1 org "user" with_access
