-- ===== src/Hub/ReadCache/Bounds.antt =====
-- The cache of apps/nagisalake-hub/src/hub/state.rs stays within its capacity.
use nagisa_lake.Prelude.{
  ℕ, ◌+◌, ◌*◌, ◌%◌, ◌^◌, ◌≤◌, ◌<◌, ◌≡◌, refl, subst, String, false, not, ◌&&◌, some, List, [], ◌∷◌,
  ◌++◌, length, All, if_both, leb, ltb, arith, Option-cases, Bool-cases, inl, inr, ◌==◌, Dict, get,
  put, remove, Distinct, Distinct-put, Distinct-remove, is_some,
}
use nagisa_lake.Hub.Eviction.{pop_oldest, IsQueued}
use nagisa_lake.Hub.Eviction.Lists.{All-map}
use nagisa_lake.Hub.Eviction.Order.{has_slot-lt}
use nagisa_lake.Hub.Eviction.Queue.{
  IsQueued-pop_oldest, pop_oldest-lt, length-pop_oldest-le, IsQueued-push, IsQueued-compacted,
  length-compacted-le, covered-tail, Increasing-tail,
}
use nagisa_lake.Hub.ReadCache.{TtlCache, drop_expired, evict_oldest, room_for, insert}
use nagisa_lake.Hub.ReadCache.Entries.{
  ReadCacheEntry, cache_slots, slot_holds, slot_holds-put, slot_holds-gone, slot_holds-stale,
  All-remove, All-put, Unique-remove, Unique-put, length-remove-le, length-put-le,
  length-put_present,
}

module _ {T : Type 0} where
  -- The table and its queue.
  pub record IsTable (entries : Dict (ReadCacheEntry T)) (order : List (ℕ × String)) (next : ℕ)
      : Type 0 where
    pub queued : IsQueued cache_slots entries order next
    pub distinct : Distinct entries

  pub IsTable-remove :
      (k : String) (entries : Dict (ReadCacheEntry T)) (order : List (ℕ × String)) (next : ℕ)
      → IsTable entries order next
      → IsTable (remove k entries) order next
  IsTable-remove k entries order next t = record {
    queued = record {
      increasing = t.queued.increasing;
      covered = All-remove _ k entries t.queued.covered;
      unique = Unique-remove (λ e. e.1.seq) k entries t.queued.unique;
    };
    distinct = Distinct-remove k entries t.distinct;
  }

  -- A slot that stands for nothing may go.
  IsTable-skip :
      (s : ℕ × String) (entries : Dict (ReadCacheEntry T)) (order : List (ℕ × String)) (next : ℕ)
      → All (λ e. slot_holds s e ≡ false) entries
      → IsTable entries (s ∷ order) next
      → IsTable entries order next
  IsTable-skip s entries order next gone t = record {
    queued = record {
      increasing = Increasing-tail cache_slots s order entries next t.queued;
      covered = covered-tail cache_slots s order entries t.queued.covered gone;
      unique = t.queued.unique;
    };
    distinct = t.distinct;
  }

  IsTable-drop_expired :
      (now : ℕ) (entries : Dict (ReadCacheEntry T)) (order : List (ℕ × String)) (next : ℕ)
      → IsTable entries order next
      → IsTable (drop_expired now entries order).0 (drop_expired now entries order).1 next
  unfolding drop_expired
  IsTable-drop_expired now entries [] next t = t
  IsTable-drop_expired now entries ((seq, key) ∷ order) next t =
      let without = IsTable-drop_expired now (remove key entries) order next (
        IsTable-skip (seq, key) (remove key entries) order next (slot_holds-gone (seq, key) entries)
          (IsTable-remove key entries ((seq, key) ∷ order) next t)) in
      let skipped =
        λ (stale : (e : ReadCacheEntry T) → get key entries ≡ some e → (e.seq == seq) ≡ false).
          IsTable-drop_expired now entries order next (
            IsTable-skip (seq, key) entries order next
              (slot_holds-stale seq key entries t.distinct stale) t) in
      elim (Option-cases (get key entries)) [
        | inl e ↦ rw (e, drop_expired) (skipped (λ w q. absurd (ground arith)))
        | inr (entry, e) ↦
            rw (e, drop_expired)
              (elim (Bool-cases (entry.seq == seq)) [
                | inl live ↦ rw live (elim (Bool-cases (ltb now entry.expires_at)) [
                  | inl fresh ↦ rw fresh t
                  | inr old ↦ rw old without
                ])
                | inr stale ↦ rw stale (skipped (λ w q. ground arith))
              ])
      ]

  pub length-drop_expired-le :
      (now : ℕ) (entries : Dict (ReadCacheEntry T)) (order : List (ℕ × String))
      → (length (drop_expired now entries order).0 ≤ length entries)
        × (length (drop_expired now entries order).1 ≤ length order)
  unfolding drop_expired
  length-drop_expired-le now entries [] = (omega arith, omega arith)
  length-drop_expired-le now entries ((seq, key) ∷ order) =
      let without = length-drop_expired-le now (remove key entries) order in
      let skipped = length-drop_expired-le now entries order in
      ground (arith, length-remove-le key entries, without, skipped)

  Distinct-evict_oldest :
      (entries : Dict (ReadCacheEntry T)) (order : List (ℕ × String))
      → Distinct entries
      → Distinct (evict_oldest entries order).0
  unfolding evict_oldest pop_oldest
  Distinct-evict_oldest entries [] d = d
  Distinct-evict_oldest entries (s ∷ order) d =
      if_both (λ (r : Dict (ReadCacheEntry T) × List (ℕ × String)). Distinct r.0) _ _ _
        (Distinct-remove s.1 entries d) (Distinct-evict_oldest entries order d)

  -- A cache whose queue covers its table, with both within their limits.
  pub record IsCache (c : TtlCache T) : Type 0 where
    pub table : IsTable c.entries c.order c.next_seq
    pub some_room : 1 ≤ c.capacity
    pub few : length c.entries ≤ c.capacity
    pub short : length c.order ≤ c.capacity * 2

  -- After room is made a key goes in without exceeding the capacity.
  record IsRoomy (c : TtlCache T) (k : String) (r : Dict (ReadCacheEntry T) × List (ℕ × String))
      : Type 0 where
    pub table : IsTable r.0 r.1 c.next_seq
    pub fits : (v : ReadCacheEntry T) → length (put k v r.0) ≤ c.capacity
    pub short : length r.1 ≤ length c.order

  IsRoomy-room_for :
      (now : ℕ) (k : String) (c : TtlCache T) → IsCache c → IsRoomy c k (room_for now k c)
  unfolding room_for
  IsRoomy-room_for now k c i =
      let live = drop_expired now c.entries c.order in
      let t = IsTable-drop_expired now c.entries c.order c.next_seq i.table in
      let le = length-drop_expired-le now c.entries c.order in
      elim (Bool-cases (leb c.capacity (length live.0) && not (is_some (get k live.0)))) [
        | inl full ↦ rw full (record {
          table = record {
            queued = IsQueued-pop_oldest cache_slots live.0 live.1 c.next_seq t.queued;
            distinct = Distinct-evict_oldest live.0 live.1 t.distinct;
          };
          fits = λ v.
              let lt =
                pop_oldest-lt cache_slots live.0 live.1 t.queued.covered
                  (ground (arith, i.some_room)) in
              omega (arith, i.few, le, length-put-le k v (evict_oldest live.0 live.1).0);
          short = omega (arith, le, length-pop_oldest-le cache_slots live.0 live.1);
        })
        | inr room ↦ rw room (record {
          table = t;
          fits = λ v. fits live.0 v room (omega (arith, le, i.few));
          short = le.1;
        })
      ]
    where
      fits :
          (m : Dict (ReadCacheEntry T)) (v : ReadCacheEntry T)
          → (leb c.capacity (length m) && not (is_some (get k m))) ≡ false
          → length m ≤ c.capacity
          → length (put k v m) ≤ c.capacity
      fits m v h le = elim (Bool-cases (is_some (get k m))) [
        | inl there ↦ omega (arith, length-put_present k v m there)
        | inr absent ↦ ground (arith, length-put-le k v m)
      ]

  IsTable-put :
      (k : String) (v : ReadCacheEntry T) (m : Dict (ReadCacheEntry T)) (order : List (ℕ × String))
      → IsTable m order v.seq
      → IsTable (put k v m) (order ++ ((v.seq, k) ∷ [])) (v.seq + 1)
  IsTable-put k v m order t = record {
    queued =
        IsQueued-push cache_slots (put k v m) order v.seq (v.seq, k) t.queued.increasing refl
          (Unique-put (λ e. e.1.seq) k v m
            (All-map
              (λ e h.
                let lt = has_slot-lt cache_slots 0 v.seq order e t.queued.increasing h in
                omega arith)
              m t.queued.covered)
            t.queued.unique)
          (All-put _ k v m (inr (slot_holds-put v.seq v.expires_at k v.value))
            (All-map (λ e h. inl h) m t.queued.covered));
    distinct = Distinct-put k v m t.distinct;
  }

  pub IsCache-insert :
      (now : ℕ) (k : String) (value : T) (c : TtlCache T)
      → IsCache c
      → c.next_seq + 1 < 2 ^ 64
      → IsCache (insert now k value c)
  unfolding insert
  IsCache-insert now k value c i small =
      let room = room_for now k c in
      let r = IsRoomy-room_for now k c i in
      let v : ReadCacheEntry T = record {
        value = value;
        expires_at = now + c.ttl;
        seq = c.next_seq;
      } in
      let next : c.next_seq + 1 ≡ (c.next_seq + 1) % 2 ^ 64 = omega arith in
      let t =
        subst (IsTable (put k v room.0) (room.1 ++ ((c.next_seq, k) ∷ []))) next
          (IsTable-put k v room.0 room.1 r.table) in
      elim (Bool-cases (ltb (c.capacity * 2) (length (room.1 ++ ((c.next_seq, k) ∷ []))))) [
        | inl long ↦ rw long (record {
          table = record {
            queued = IsQueued-compacted cache_slots _ _ _ t.queued;
            distinct = t.distinct;
          };
          some_room = i.some_room;
          few = r.fits v;
          short = omega (arith, r.fits v, length-compacted-le cache_slots _ _ _ t.queued);
        })
        | inr fits ↦
            rw fits
              (record { table = t; some_room = i.some_room; few = r.fits v; short = ground arith })
      ]
