-- ===== src/Hub/ReadCache/Answers.antt =====
-- What a cache of apps/nagisalake-hub/src/hub/state.rs answers, against a map without bounds.
use nagisa_lake.Prelude.{
  ℕ, ◌+◌, ◌<◌, ◌≡◌, refl, sym, ap, subst, ◌∙◌, String, Bool, not, ◌&&◌, Option, none, some, List,
  [], ◌∷◌, length, retain, any, if◌then◌else◌, if_both, leb, arith, Option-cases, Bool-cases, inl,
  inr, ◌=ˢ◌, is_some, Dict, get, put, remove, get-put, get-remove, eq_iff,
}
use nagisa_lake.Hub.Eviction.{pop_oldest}
use nagisa_lake.Hub.ReadCache.{
  TtlCache, new, lookup, drop_expired, evict_oldest, room_for, insert, discard, keep_keys,
}
use nagisa_lake.Hub.ReadCache.Entries.{ReadCacheEntry, slot_holds}
use nagisa_lake.Hub.ReadCache.Runs.{
  Call, looked_up, inserted, discarded, kept, step, run, ideal_step, ideal_run,
}

pub get-retain_keys :
    {V : Type 0} (keep : String → Bool) (k : String) (m : Dict V)
    → get k (retain (λ e. keep e.0) m) ≡ (if keep k then get k m else none)
unfolding get
get-retain_keys keep k [] = ground arith
get-retain_keys keep k ((j, w) ∷ m) = elim (Bool-cases (j =ˢ k)) [
  | inl hit ↦
      let same = (eq_iff j k).0 hit in ground (arith, get-retain_keys keep k m, ap keep same)
  | inr miss ↦ ground (arith, get-retain_keys keep k m)
]

module _ {T : Type 0} where
  -- What one table answers, the other answers as well.
  Sub : Dict (ReadCacheEntry T) → Dict (ReadCacheEntry T) → Type 0
  Sub m n = (k : String) (e : ReadCacheEntry T) → get k m ≡ some e → get k n ≡ some e

  Sub-remove : (k : String) (m n : Dict (ReadCacheEntry T)) → Sub m n → Sub (remove k m) n
  unfolding Sub
  Sub-remove k m n s j e h = s j e (ground (arith, get-remove k j m))

  Sub-evict_oldest :
      (m : Dict (ReadCacheEntry T)) (order : List (ℕ × String)) → Sub (evict_oldest m order).0 m
  unfolding evict_oldest pop_oldest Sub
  Sub-evict_oldest m [] k e h = h
  Sub-evict_oldest m (s ∷ order) k e h = elim (Bool-cases (any (slot_holds s) m)) [
    | inl hit ↦ Sub-remove s.1 m m (λ j f q. q) k e (rw hit at h)
    | inr miss ↦ Sub-evict_oldest m order k e (rw miss at h)
  ]

  Sub-drop_expired :
      (now : ℕ) (m n : Dict (ReadCacheEntry T)) (order : List (ℕ × String))
      → Sub m n
      → Sub (drop_expired now m order).0 n
  unfolding drop_expired
  Sub-drop_expired now m n [] s = s
  Sub-drop_expired now m n ((seq, key) ∷ order) s =
      let without = Sub-drop_expired now (remove key m) n order (Sub-remove key m n s) in
      let skipped = Sub-drop_expired now m n order s in
      elim (Option-cases (get key m)) [
        | inl e ↦ rw (e, drop_expired) skipped
        | inr (entry, e) ↦
            rw (e, drop_expired)
              (if_both (λ (r : Dict (ReadCacheEntry T) × List (ℕ × String)). Sub r.0 n) _ _ _
                (if_both (λ (r : Dict (ReadCacheEntry T) × List (ℕ × String)). Sub r.0 n) _ _ _ s
                  without)
                skipped)
      ]

  Sub-room_for : (now : ℕ) (k : String) (c : TtlCache T) → Sub (room_for now k c).0 c.entries
  unfolding room_for Sub
  Sub-room_for now k c =
      let live = drop_expired now c.entries c.order in
      let drops = Sub-drop_expired now c.entries c.entries c.order (λ j e h. h) in
      if_both (λ (r : Dict (ReadCacheEntry T) × List (ℕ × String)). Sub r.0 c.entries)
        (leb c.capacity (length live.0) && not (is_some (get k live.0))) _ _
        (λ j e h. drops j e (Sub-evict_oldest live.0 live.1 j e h)) drops

  -- The cache knows no more than the map.
  record Agrees (ttl : ℕ) (m : Dict (T × ℕ)) (c : TtlCache T) : Type 0 where
    pub held :
        (k : String) (e : ReadCacheEntry T)
        → get k c.entries ≡ some e
        → get k m ≡ some (e.value, e.expires_at)
    pub lasts : c.ttl ≡ ttl

  pub entries-insert :
      (now : ℕ) (k : String) (v : T) (c : TtlCache T)
      → ((insert now k v c).entries
          ≡ put k
              (record { value = v; expires_at = now + c.ttl; seq = c.next_seq })
              (room_for now k c).0)
        × ((insert now k v c).ttl ≡ c.ttl)
  unfolding insert
  entries-insert now k v c = (refl, refl)

  held-put :
      (k j : String) (w e : ReadCacheEntry T) (n : Dict (ReadCacheEntry T)) (m : Dict (T × ℕ))
      → (get j n ≡ some e → get j m ≡ some (e.value, e.expires_at))
      → get j (put k w n) ≡ some e
      → get j (put k (w.value, w.expires_at) m) ≡ some (e.value, e.expires_at)
  held-put k j w e n m before h = elim (Bool-cases (k =ˢ j)) [
    | inl hit ↦
        let q : w ≡ e = ground (arith, get-put k j w n) in
        get-put k j (w.value, w.expires_at) m ∙ rw hit (ap (λ x. some (x.value, x.expires_at)) q)
    | inr miss ↦ ground (arith, get-put k j w n, get-put k j (w.value, w.expires_at) m)
  ]

  Agrees-insert :
      (now : ℕ) (k : String) (v : T) (ttl : ℕ) (m : Dict (T × ℕ)) (c : TtlCache T)
      → Agrees ttl m c
      → Agrees ttl (put k (v, now + ttl) m) (insert now k v c)
  unfolding Sub
  Agrees-insert now k v ttl m c a =
      let (table, same) = entries-insert now k v c in
      record {
        held = λ j e h.
            subst (λ s. get j (put k (v, now + s) m) ≡ some (e.value, e.expires_at)) a.lasts
              (held-put k j (record { value = v; expires_at = now + c.ttl; seq = c.next_seq }) e
                (room_for now k c).0 m (λ q. a.held j e (Sub-room_for now k c j e q))
                (sym (ap (get j) table) ∙ h));
        lasts = same ∙ a.lasts;
      }

  Agrees-lookup :
      (now : ℕ) (k : String) (ttl : ℕ) (m : Dict (T × ℕ)) (c : TtlCache T)
      → Agrees ttl m c
      → Agrees ttl m (lookup now k c).0
  unfolding lookup Sub
  Agrees-lookup now k ttl m c a = elim (Option-cases (get k c.entries)) [
    | inl e ↦ rw (e, lookup) a
    | inr (entry, e) ↦
        rw (e, lookup)
          (if_both (λ (r : TtlCache T × Option T). Agrees ttl m r.0) _ _ _
            (record {
              held = λ j w h. a.held j w (Sub-remove k c.entries c.entries (λ i f q. q) j w h);
              lasts = a.lasts;
            })
            a)
  ]

  Agrees-step :
      (ttl : ℕ) (m : Dict (T × ℕ)) (c : TtlCache T) (call : Call T)
      → Agrees ttl m c
      → Agrees ttl (ideal_step ttl m call) (step c call)
  unfolding ideal_step step discard keep_keys
  Agrees-step ttl m c (looked_up now k) a = Agrees-lookup now k ttl m c a
  Agrees-step ttl m c (inserted now k v) a = Agrees-insert now k v ttl m c a
  Agrees-step ttl m c (discarded k) a = record {
    held = λ j e h.
        let here = a.held j e in ground (arith, get-remove k j c.entries, get-remove k j m);
    lasts = a.lasts;
  }
  Agrees-step ttl m c (kept keep) a = record {
    held = λ j e h.
        let here = a.held j e in
        ground (arith, get-retain_keys keep j c.entries, get-retain_keys keep j m);
    lasts = a.lasts;
  }

  Agrees-run :
      (ttl : ℕ) (m : Dict (T × ℕ)) (c : TtlCache T) (calls : List (Call T))
      → Agrees ttl m c
      → Agrees ttl (ideal_run ttl m calls) (run c calls)
  unfolding ideal_run run
  Agrees-run ttl m c [] a = a
  Agrees-run ttl m c (call ∷ calls) a =
      Agrees-run ttl (ideal_step ttl m call) (step c call) calls (Agrees-step ttl m c call a)

  Agrees-new : (ttl capacity : ℕ) → Agrees ttl [] (new ttl capacity)
  unfolding new get
  Agrees-new ttl capacity = record { held = λ k e h. cc; lasts = refl }

  lookup-some :
      (now : ℕ) (k : String) (c : TtlCache T) (v : T)
      → (lookup now k c).1 ≡ some v
      → (e : ReadCacheEntry T) × (get k c.entries ≡ some e) × (e.value ≡ v) × (now < e.expires_at)
  unfolding lookup
  lookup-some now k c v h = elim (Option-cases (get k c.entries)) [
    | inl e ↦ let g = rw (e, lookup) at h in absurd (ground arith)
    | inr (entry, e) ↦
        let g = rw (e, lookup) at h in
        elim (Bool-cases (leb entry.expires_at now)) [
          | inl old ↦ let g' = rw old at g in absurd (ground arith)
          | inr fresh ↦ let g' = rw fresh at g in (entry, e, ground arith, ground arith)
        ]
  ]

  -- Of a new cache, after any calls: what it answers at some time is what a map without bounds holds
  -- after the same calls, and there it has not expired at that time.
  pub run-answers :
      (ttl capacity : ℕ) (calls : List (Call T)) (now : ℕ) (k : String) (v : T)
      → (lookup now k (run (new ttl capacity) calls)).1 ≡ some v
      → (t : ℕ) × (get k (ideal_run ttl [] calls) ≡ some (v, t)) × (now < t)
  run-answers ttl capacity calls now k v h =
      let a = Agrees-run ttl [] (new ttl capacity) calls (Agrees-new ttl capacity) in
      let (e, found, same, fresh) = lookup-some now k (run (new ttl capacity) calls) v h in
      (e.expires_at, a.held k e found ∙ ap (λ w. some (w, e.expires_at)) same, fresh)
