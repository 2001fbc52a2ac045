-- ===== src/Hub/Sessions/Selection.antt =====
-- Which session `reserve_capacity` of apps/nagisalake-hub/src/hub/sessions.rs selects.
use nagisa_lake.Prelude.{
  ℕ, ◌≤◌, ◌≡◌, String, Bool, true, false, ◌&&◌, Option, none, some, [], ◌∷◌, arith, Bool-cases, inl,
  inr, get, Dict, eq_iff, Distinct, AllValues, leb, leb→le,
}
use nagisa_lake.Hub.Sessions.{WorkerSession, WorkerView, worker_capacity_load}
use nagisa_lake.Hub.Sessions.Reserve.{has_room, least_loaded, lighter}

module _ {J : Type 0} (p : WorkerView J → Bool) where
  -- `k` holds the session `s`, which the caller wants and which has room, and no other such session
  -- carries less.
  pub record Least (m : Dict (WorkerSession J)) (k : String) (s : WorkerSession J) : Type 0 where
    pub held : get k m ≡ some s
    pub wanted : p s.view ≡ true
    pub roomy : has_room s ≡ true
    pub least :
        AllValues
          (λ t. p t.view && has_room t ≡ true → worker_capacity_load s ≤ worker_capacity_load t)
          m

  abbrev Weigh : ℕ → Dict (WorkerSession J) → Type 0
  Weigh n m = AllValues (λ t. p t.view && has_room t ≡ true → n ≤ worker_capacity_load t) m

  Weigh-mono : (n l : ℕ) (m : Dict (WorkerSession J)) → n ≤ l → Weigh l m → Weigh n m
  Weigh-mono n l [] h a = tt
  Weigh-mono n l ((k, t) ∷ m) h a = (λ e. lower (a.0 e), Weigh-mono n l m h a.1)
    where
      lower : l ≤ worker_capacity_load t → n ≤ worker_capacity_load t
      lower q = omega arith

  -- `none` says that no session would do.
  abbrev pub LeastOption : Dict (WorkerSession J) → Option (String × WorkerSession J) → Type 0
  LeastOption m none = AllValues (λ t. p t.view && has_room t ≡ false) m
  LeastOption m (some (k, s)) = Least m k s

  unwanted-Weigh :
      (n : ℕ) (m : Dict (WorkerSession J))
      → AllValues (λ t. p t.view && has_room t ≡ false) m
      → Weigh n m
  unwanted-Weigh n [] a = tt
  unwanted-Weigh n ((k, t) ∷ m) a = (λ e. cc (a.0), unwanted-Weigh n m a.1)

  skipped :
      (j : String) (t : WorkerSession J) (m : Dict (WorkerSession J))
      (r : Option (String × WorkerSession J))
      → p t.view && has_room t ≡ false
      → get j m ≡ none
      → LeastOption m r
      → LeastOption ((j, t) ∷ m) r
  unfolding get
  skipped j t m none b d h = (b, h)
  skipped j t m (some (k, s)) b d h = record {
    held = ground (arith, eq_iff j k, h.held);
    wanted = h.wanted;
    roomy = h.roomy;
    least = (λ e. cc b, h.least);
  }

  weighed :
      (j : String) (t : WorkerSession J) (m : Dict (WorkerSession J))
      (r : Option (String × WorkerSession J))
      → p t.view ≡ true
      → has_room t ≡ true
      → get j m ≡ none
      → LeastOption m r
      → LeastOption ((j, t) ∷ m) (lighter j t r)
  unfolding get lighter
  weighed j t m none w f d h = record {
    held = ground (arith, eq_iff j j);
    wanted = w;
    roomy = f;
    least = (λ _. omega arith, unwanted-Weigh _ m h);
  }
  weighed j t m (some (k, s)) w f d h =
      elim (Bool-cases (leb (worker_capacity_load t) (worker_capacity_load s))) [
        | inl le ↦ rw le (record {
          held = ground (arith, eq_iff j j);
          wanted = w;
          roomy = f;
          least = (λ _. omega arith, Weigh-mono _ _ m (leb→le _ _ le) h.least);
        })
        | inr gt ↦ rw gt (record {
          held = ground (arith, eq_iff j k, h.held);
          wanted = h.wanted;
          roomy = h.roomy;
          least = (λ _. above gt, h.least);
        })
      ]
    where
      above :
          leb (worker_capacity_load t) (worker_capacity_load s) ≡ false
          → worker_capacity_load s ≤ worker_capacity_load t
      above e = ground arith

  -- The session that is selected is wanted, has room, and carries the least of all such sessions;
  -- none is selected exactly when there is no such session.
  pub least_loaded-LeastOption :
      (m : Dict (WorkerSession J)) → Distinct m → LeastOption m (least_loaded p m)
  unfolding least_loaded
  least_loaded-LeastOption [] d = tt
  least_loaded-LeastOption ((j, t) ∷ m) d = elim (Bool-cases (p t.view && has_room t)) [
    | inr skip ↦
        rw skip (skipped j t m (least_loaded p m) skip d.0 (least_loaded-LeastOption m d.1))
    | inl fits ↦ rw fits (
        weighed j t m (least_loaded p m) (ground arith) (ground arith) d.0
          (least_loaded-LeastOption m d.1))
  ]
