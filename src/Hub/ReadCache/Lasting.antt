-- ===== src/Hub/ReadCache/Lasting.antt =====
-- How long a cache of apps/nagisalake-hub/src/hub/state.rs keeps what was put into it.
use nagisa_lake.Prelude.{
  ℕ, ◌+◌, ◌<◌, ◌≡◌, ap, subst, ◌∙◌, String, true, false, some, List, [], ◌∷◌, length, leb, ltb,
  ◌==◌, arith, Option-cases, Bool-cases, inl, inr, ◌=ˢ◌, Dict, get, remove, get-put, get-remove,
  eq_iff, =ˢ_refl,
}
use nagisa_lake.Hub.ReadCache.{TtlCache, lookup, drop_expired, room_for, insert, discard, keep_keys}
use nagisa_lake.Hub.ReadCache.Entries.{ReadCacheEntry}
use nagisa_lake.Hub.ReadCache.Runs.{Call, looked_up, inserted, discarded, kept, step, run}
use nagisa_lake.Hub.ReadCache.Bounds.{length-drop_expired-le}
use nagisa_lake.Hub.ReadCache.Answers.{get-retain_keys, entries-insert}

module _ {T : Type 0} where
  -- The call comes before `t`, does not name `k`, and evicts nothing for want of room.
  unfoldable pub IsSparing : String → ℕ → TtlCache T → Call T → Type 0
  IsSparing k t c (looked_up now j) = now < t
  IsSparing k t c (inserted now j v) =
      (now < t) × ((j =ˢ k) ≡ false) × (length c.entries < c.capacity)
  IsSparing k t c (discarded j) = (j =ˢ k) ≡ false
  IsSparing k t c (kept keep) = keep k ≡ true

  unfoldable pub AreSparing : String → ℕ → TtlCache T → List (Call T) → Type 0
  AreSparing k t c [] = Unit
  AreSparing k t c (call ∷ calls) = IsSparing k t c call × AreSparing k t (step c call) calls

  module _ (k : String) (e : ReadCacheEntry T) where
    drop_expired-keeps :
        (now : ℕ) (m : Dict (ReadCacheEntry T)) (order : List (ℕ × String))
        → now < e.expires_at
        → get k m ≡ some e
        → get k (drop_expired now m order).0 ≡ some e
    unfolding drop_expired
    drop_expired-keeps now m [] fresh h = h
    drop_expired-keeps now m ((seq, key) ∷ order) fresh h =
        let skipped = drop_expired-keeps now m order fresh h in
        elim (Option-cases (get key m)) [
          | inl absent ↦ rw (absent, drop_expired) skipped
          | inr (entry, there) ↦ elim (Bool-cases (entry.seq == seq)) [
            | inr stale ↦ rw (there, stale, drop_expired) skipped
            | inl live ↦ elim (Bool-cases (ltb now entry.expires_at)) [
              | inl lasts ↦ rw (there, live, lasts, drop_expired) h
              | inr old ↦
                  rw (there, live, old, drop_expired)
                    (drop_expired-keeps now (remove key m) order fresh
                      (elim (Bool-cases (key =ˢ k)) [
                        | inl same ↦
                            let here : get k m ≡ some entry =
                              subst (λ j. get j m ≡ some entry) ((eq_iff key k).0 same) there in
                            let q : entry ≡ e = ground arith in
                            let late : ltb now e.expires_at ≡ false =
                              subst (λ x. ltb now x.expires_at ≡ false) q old in
                            absurd (ground arith)
                        | inr other ↦ ground (arith, get-remove key k m)
                      ]))
            ]
          ]
        ]

    insert-keeps :
        (now : ℕ) (j : String) (v : T) (c : TtlCache T)
        → now < e.expires_at
        → (j =ˢ k) ≡ false
        → length c.entries < c.capacity
        → get k c.entries ≡ some e
        → get k (insert now j v c).entries ≡ some e
    unfolding room_for
    insert-keeps now j v c fresh other room h =
        let live = drop_expired now c.entries c.order in
        let small = (length-drop_expired-le now c.entries c.order).0 in
        let roomy : leb c.capacity (length live.0) ≡ false = ground arith in
        let new : ReadCacheEntry T = record {
          value = v;
          expires_at = now + c.ttl;
          seq = c.next_seq;
        } in
        let unevicted : (room_for now j c).0 ≡ live.0 = rw (roomy, room_for) in
        ap (get k) (entries-insert now j v c).0
        ∙ get-put j k new (room_for now j c).0
        ∙ rw other (ap (get k) unevicted ∙ drop_expired-keeps now c.entries c.order fresh h)

    lookup-keeps :
        (now : ℕ) (j : String) (c : TtlCache T)
        → now < e.expires_at
        → get k c.entries ≡ some e
        → get k (lookup now j c).0.entries ≡ some e
    unfolding lookup
    lookup-keeps now j c fresh h = elim (Option-cases (get j c.entries)) [
      | inl absent ↦ rw (absent, lookup) h
      | inr (entry, there) ↦ elim (Bool-cases (leb entry.expires_at now)) [
        | inr lasts ↦ rw (there, lasts, lookup) h
        | inl old ↦
            rw (there, old, lookup)
              (elim (Bool-cases (j =ˢ k)) [
                | inl same ↦
                    let here : get k c.entries ≡ some entry =
                      subst (λ i. get i c.entries ≡ some entry) ((eq_iff j k).0 same) there in
                    let q : entry ≡ e = ground arith in
                    let late : leb e.expires_at now ≡ true =
                      subst (λ x. leb x.expires_at now ≡ true) q old in
                    absurd (ground arith)
                | inr other ↦ ground (arith, get-remove j k c.entries)
              ])
      ]
    ]

    step-keeps :
        (c : TtlCache T) (call : Call T)
        → IsSparing k e.expires_at c call
        → get k c.entries ≡ some e
        → get k (step c call).entries ≡ some e
    unfolding step IsSparing discard keep_keys
    step-keeps c (looked_up now j) fresh h = lookup-keeps now j c fresh h
    step-keeps c (inserted now j v) (fresh, other, room) h =
        insert-keeps now j v c fresh other room h
    step-keeps c (discarded j) other h = get-remove j k c.entries ∙ rw other h
    step-keeps c (kept keep) keeps h = get-retain_keys keep k c.entries ∙ rw keeps h

    run-keeps :
        (c : TtlCache T) (calls : List (Call T))
        → AreSparing k e.expires_at c calls
        → get k c.entries ≡ some e
        → get k (run c calls).entries ≡ some e
    unfolding run AreSparing
    run-keeps c [] s h = h
    run-keeps c (call ∷ calls) s h = run-keeps (step c call) calls s.1 (step-keeps c call s.0 h)

  -- What was put into a cache under a key is what the cache answers for that key until it expires,
  -- after any calls in between that come before that, do not put anything else under the key or
  -- remove it, and put entries in only while the cache is below its capacity.
  pub lookup-inserted :
      (now later : ℕ) (k : String) (v : T) (c : TtlCache T) (calls : List (Call T))
      → AreSparing k (now + c.ttl) (insert now k v c) calls
      → later < now + c.ttl
      → (lookup later k (run (insert now k v c) calls)).1 ≡ some v
  unfolding lookup
  lookup-inserted now later k v c calls sparing h =
      let entry : ReadCacheEntry T = record {
        value = v;
        expires_at = now + c.ttl;
        seq = c.next_seq;
      } in
      let held : get k (insert now k v c).entries ≡ some entry =
        ap (get k) (entries-insert now k v c).0
        ∙ get-put k k entry (room_for now k c).0
        ∙ rw (=ˢ_refl k) in
      let kept' = run-keeps k entry (insert now k v c) calls sparing held in
      let fresh : leb (now + c.ttl) later ≡ false = ground arith in rw (kept', lookup) (rw fresh)
