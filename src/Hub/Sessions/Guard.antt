-- ===== src/Hub/Sessions/Guard.antt =====
-- What a revoked credential leaves in the directory of apps/nagisalake-hub/src/hub/sessions.rs, and
-- that each call keeps it.
use nagisa_lake.Prelude.{
  ℕ, ◌≡◌, refl, sym, ap, subst, String, Bool, true, false, Option, none, some, not, arith, retain,
  AllValues, AllValues-get, AllValues-put, put, AllValues-remove, AllValues-retain, Bool-cases,
  Option-cases, inl, inr, get, ◌=ˢ◌, if◌then◌else◌, is_some, ◌||◌, =ˢ_refl, eq_iff,
}
use nagisa_lake.Hub.Sessions.{
  WorkerSession, WorkerView, SessionRegistry, StringSet, contains, set_insert, current, session_key,
}
use nagisa_lake.Hub.Sessions.Registry.{
  update_heartbeat, revoked_session, has_credential, insert_session, remove_if_current,
  disconnect_credential,
}
use nagisa_lake.Hub.Sessions.Reserve.{
  has_room, reserved, least_loaded, reserve_capacity, reserve_capacity_on,
  ensure_capacity_reservation,
}
use nagisa_lake.Hub.Sessions.Settle.{released, confirmed, settled, update_current}

-- The credential is listed as revoked, and no connected session uses it.
pub record Guarded {J : Type 0} (c : String) (g : SessionRegistry J) : Type 0 where
  pub listed : contains c g.revoked_credentials ≡ true
  pub absent : AllValues (λ s. has_credential c s ≡ false) g.inner

contains-set_insert :
    (c d : String) (s : StringSet) → contains c s ≡ true → contains c (set_insert d s).0 ≡ true
unfolding set_insert
contains-set_insert c d s h = ground arith

pub contains-set_insert_self : (c : String) (s : StringSet) → contains c (set_insert c s).0 ≡ true
unfolding set_insert
contains-set_insert_self c s = ground (arith, =ˢ_refl c)

admitted-absent :
    {J : Type 0} (c : String) (revoked : StringSet) (s : WorkerSession J)
    → contains c revoked ≡ true
    → revoked_session revoked s ≡ false
    → has_credential c s ≡ false
unfolding revoked_session has_credential
admitted-absent c revoked s h r = credential s.credential_id r
  where
    credential :
        (o : Option String)
        → elim o [ none ↦ false | some d ↦ contains d revoked ] ≡ false
        → elim o [ none ↦ false | some d ↦ d =ˢ c ] ≡ false
    credential none r = refl
    credential (some d) r = elim (Bool-cases (d =ˢ c)) [
      | inr other ↦ other
      | inl same ↦ cc (h, r, ap (λ x. contains x revoked) ((eq_iff d c).0 same))
    ]

module _ {J : Type 0} (c : String) (g : SessionRegistry J) (safe : Guarded c g) where
  write :
      (k : String) (s : WorkerSession J)
      → has_credential c s ≡ false
      → AllValues (λ t. has_credential c t ≡ false) (put k s g.inner)
  write k s h = AllValues-put (λ t. has_credential c t ≡ false) k s g.inner h safe.absent

  found : (k : String) (s : WorkerSession J) → get k g.inner ≡ some s → has_credential c s ≡ false
  found k s e = AllValues-get (λ t. has_credential c t ≡ false) k g.inner s safe.absent e

  found_current :
      (o w i : String) (s : WorkerSession J) → current g o w i ≡ some s → has_credential c s ≡ false
  unfolding current
  found_current o w i s e = found (session_key o w) s (ground arith)

  put-Guarded :
      (k : String) (s : WorkerSession J)
      → has_credential c s ≡ false
      → Guarded c (record g { inner = put k s g.inner })
  put-Guarded k s h = record { listed = safe.listed; absent = write k s h }

  pub kept-Guarded :
      (test : String × WorkerSession J → Bool)
      → Guarded c (record g { inner = retain test g.inner })
  kept-Guarded test = record {
    listed = safe.listed;
    absent = AllValues-retain (λ t. has_credential c t ≡ false) test g.inner safe.absent;
  }

  pub update_current-Guarded :
      (o w i : String) (f : WorkerSession J → WorkerSession J)
      → ((s : WorkerSession J) → (f s).credential_id ≡ s.credential_id)
      → Guarded c (update_current g o w i f)
  unfolding update_current has_credential
  update_current-Guarded o w i f keeps = elim (Option-cases (current g o w i)) [
    | inl e ↦ rw (e, update_current) safe
    | inr (s, e) ↦
        rw (e, update_current)
          (put-Guarded _ (f s) (
            subst (λ x. elim x [ none ↦ false | some d ↦ d =ˢ c ] ≡ false) (sym (keeps s))
              (found_current o w i s e)))
  ]

  branch-Guarded :
      {A : Type 0} (b : Bool) (x y : SessionRegistry J × A)
      → Guarded c x.0
      → Guarded c y.0
      → Guarded c (if b then x else y).0
  branch-Guarded true x y u v = u
  branch-Guarded false x y u v = v

  reserved-absent :
      (d : String) (s : WorkerSession J)
      → has_credential c s ≡ false
      → has_credential c (reserved d s) ≡ false
  unfolding reserved has_credential
  reserved-absent d s h = h

  pub join-Guarded : (s : WorkerSession J) → Guarded c (insert_session g s).0
  unfolding insert_session
  join-Guarded s = elim (Bool-cases (revoked_session g.revoked_credentials s)) [
    | inl out ↦ rw out safe
    | inr in' ↦ rw in' (put-Guarded _ s (admitted-absent c g.revoked_credentials s safe.listed in'))
  ]

  pub revoke-Guarded : (d : String) → Guarded c (disconnect_credential g d).0
  unfolding disconnect_credential
  revoke-Guarded d = record {
    listed = contains-set_insert c d g.revoked_credentials safe.listed;
    absent = (kept-Guarded _).absent;
  }

  pub leave-Guarded : (o w i : String) → Guarded c (remove_if_current g o w i)
  unfolding remove_if_current
  leave-Guarded o w i = elim (Bool-cases (is_some (current g o w i))) [
    | inl e ↦ rw e (record {
      listed = safe.listed;
      absent = AllValues-remove (λ t. has_credential c t ≡ false) _ g.inner safe.absent;
    })
    | inr e ↦ rw e safe
  ]

  pub heartbeat-Guarded :
      (now : ℕ) (o w i : String) (a q : ℕ) → Guarded c (update_heartbeat g now o w i a q).0
  unfolding update_heartbeat has_credential
  heartbeat-Guarded now o w i a q = elim (Option-cases (current g o w i)) [
    | inl e ↦ rw (e, update_heartbeat) safe
    | inr (s, e) ↦ rw (e, update_heartbeat) (put-Guarded _ _ (found_current o w i s e))
  ]

  pub reserve-Guarded :
      (d : String) (p : WorkerView J → Bool) → Guarded c (reserve_capacity g d p).0
  unfolding reserve_capacity
  reserve-Guarded d p = elim (Option-cases (least_loaded p g.inner)) [
    | inl e ↦ rw (e, reserve_capacity) safe
    | inr ((k, s), e) ↦
        rw (e, reserve_capacity)
          (elim (Option-cases (get k g.inner)) [
            | inl e' ↦ rw (e', reserve_capacity) safe
            | inr (t, e') ↦
                rw (e', reserve_capacity)
                  (branch-Guarded (contains d t.pending_capacity_reservations) _ _ safe
                    (put-Guarded k (reserved d t) (reserved-absent d t (found k t e'))))
          ])
  ]

  pub reserve_on-Guarded :
      (o w d : String) (p : WorkerView J → Bool) → Guarded c (reserve_capacity_on g o w d p).0
  unfolding reserve_capacity_on
  reserve_on-Guarded o w d p = elim (Option-cases (get (session_key o w) g.inner)) [
    | inl e ↦ rw (e, reserve_capacity_on) safe
    | inr (s, e) ↦
        rw (e, reserve_capacity_on)
          (branch-Guarded
            (not (p s.view) || not (has_room s) || contains d s.pending_capacity_reservations) _ _
            safe (put-Guarded _ (reserved d s) (reserved-absent d s (found _ s e))))
  ]

  pub ensure-Guarded : (o w i d : String) → Guarded c (ensure_capacity_reservation g o w i d).0
  unfolding ensure_capacity_reservation
  ensure-Guarded o w i d = elim (Option-cases (current g o w i)) [
    | inl e ↦ rw (e, ensure_capacity_reservation) safe
    | inr (s, e) ↦
        rw (e, ensure_capacity_reservation)
          (elim (Bool-cases (
            contains d s.pending_capacity_reservations
            || contains d s.confirmed_capacity_reservations)) [
              | inl known ↦ rw known safe
              | inr new ↦ rw new (
                  branch-Guarded (not (has_room s)) _ _ safe
                    (put-Guarded _ (reserved d s) (reserved-absent d s (found_current o w i s e))))
            ])
  ]

pub confirmed-credential_id :
    {J : Type 0} (d : String) (s : WorkerSession J)
    → (confirmed d s).credential_id ≡ s.credential_id
unfolding confirmed
confirmed-credential_id d s = elim (Bool-cases (contains d s.pending_capacity_reservations)) [
  | inl there ↦ rw there
  | inr absent ↦ rw absent
]

pub settled-credential_id :
    {J : Type 0} (d : String) (b : Bool) (s : WorkerSession J)
    → (settled d b s).credential_id ≡ s.credential_id
unfolding settled released
settled-credential_id d true s = confirmed-credential_id d s
settled-credential_id d false s = refl
