-- ===== src/Hub/Sessions/Revocation.antt =====
-- Revoked credentials in apps/nagisalake-hub/src/hub/sessions.rs, and the sweep that forgets them.
use nagisa_lake.Prelude.{
  ◌≡◌, refl, String, Bool, true, false, List, [], ◌∷◌, arith, AllValues, any, AllValues-passed,
}
use nagisa_lake.Hub.Sessions.{SessionRegistry}
use nagisa_lake.Hub.Sessions.Registry.{
  has_credential, disconnect_credential, disconnect_organization, reap_stale,
}
use nagisa_lake.Hub.Sessions.Settle.{
  released, confirmed, settled, release_capacity_reservation, mark_capacity_reservation_uncertain,
  settle_capacity_reservation,
}
use nagisa_lake.Hub.Sessions.Machine.{
  Call, join, revoke, reap_revoked, drop_organization, leave, heartbeat, reap, reserve, reserve_on,
  ensure, release, mark_uncertain, settle, step, run,
}
use nagisa_lake.Prelude.{Bool, Dict, retain, Bool-cases, inl, inr, eq_iff, ap, some, ◌=ˢ◌}
use nagisa_lake.Hub.Sessions.Registry.{
  keep, insert_session, revoked_session, reap_revoked_credentials,
}
use nagisa_lake.Hub.Sessions.{WorkerSession, StringSet, contains, set_insert}
use nagisa_lake.Hub.Sessions.Guard.{
  Guarded, confirmed-credential_id, contains-set_insert_self, ensure-Guarded, heartbeat-Guarded,
  join-Guarded, kept-Guarded, leave-Guarded, reserve-Guarded, reserve_on-Guarded, revoke-Guarded,
  settled-credential_id, update_current-Guarded,
}

-- The call is not the sweep that forgets revoked credentials.
abbrev pub forgets : {J : Type 0} → Call J → Bool
forgets reap_revoked = true
forgets _ = false

step-Guarded :
    {J : Type 0} (c : String) (g : SessionRegistry J) (q : Call J)
    → Guarded c g
    → forgets q ≡ false
    → Guarded c (step g q)
unfolding step disconnect_organization reap_stale release_capacity_reservation
    mark_capacity_reservation_uncertain settle_capacity_reservation released
step-Guarded c g (join s) safe h = join-Guarded c g safe s
step-Guarded c g (revoke d) safe h = revoke-Guarded c g safe d
step-Guarded c g reap_revoked safe h = cc
step-Guarded c g (drop_organization o) safe h = kept-Guarded c g safe _
step-Guarded c g (leave o w i) safe h = leave-Guarded c g safe o w i
step-Guarded c g (heartbeat now o w i a q) safe h = heartbeat-Guarded c g safe now o w i a q
step-Guarded c g (reap now n) safe h = kept-Guarded c g safe _
step-Guarded c g (reserve d p) safe h = reserve-Guarded c g safe d p
step-Guarded c g (reserve_on o w d p) safe h = reserve_on-Guarded c g safe o w d p
step-Guarded c g (ensure o w i d) safe h = ensure-Guarded c g safe o w i d
step-Guarded c g (release o w i d) safe h =
    update_current-Guarded c g safe o w i (released d) (λ s. refl)
step-Guarded c g (mark_uncertain o w i d) safe h =
    update_current-Guarded c g safe o w i (confirmed d) (confirmed-credential_id d)
step-Guarded c g (settle o w i d b) safe h =
    update_current-Guarded c g safe o w i (settled d b) (settled-credential_id d b)

revoked-Guarded : {J : Type 0} (c : String) (g : SessionRegistry J) → Guarded c (step g (revoke c))
unfolding step disconnect_credential
revoked-Guarded c g = record {
  listed = contains-set_insert_self c g.revoked_credentials;
  absent = AllValues-passed (λ s. has_credential c s ≡ false) (has_credential c) (λ s h. h) g.inner;
}

run-Guarded :
    {J : Type 0} (c : String) (g : SessionRegistry J) (qs : List (Call J))
    → Guarded c g
    → any forgets qs ≡ false
    → Guarded c (run g qs)
unfolding run
run-Guarded c g [] safe h = safe
run-Guarded c g (q ∷ qs) safe h =
    run-Guarded c (step g q) qs (step-Guarded c g q safe (ground arith)) (ground arith)

-- Once a credential is revoked, no interleaving of other calls brings a session of it into the
-- directory, until a sweep forgets revoked credentials.
pub revoke-absent :
    {J : Type 0} (c : String) (g : SessionRegistry J) (qs : List (Call J))
    → any forgets qs ≡ false
    → AllValues (λ s. has_credential c s ≡ false) (run (step g (revoke c)) qs).inner
revoke-absent c g qs h = (run-Guarded c (step g (revoke c)) qs (revoked-Guarded c g) h).absent

contains-retain :
    (c : String) (p : String → Bool) (s : StringSet) → p c ≡ false → contains c (retain p s) ≡ false
contains-retain c p [] h = refl
contains-retain c p (x ∷ s) h = elim (Bool-cases (p x)) [
  | inr out ↦ rw out (contains-retain c p s h)
  | inl in' ↦ rw in' (ground (arith, contains-retain c p s h, another in' h))
]
  where
    another : p x ≡ true → p c ≡ false → (x =ˢ c) ≡ false
    another q r = elim (Bool-cases (x =ˢ c)) [
      | inr e ↦ e
      | inl e ↦ absurd (cc (ap p ((eq_iff x c).0 e), q, r))
    ]

any-keep :
    {J : Type 0} (p : WorkerSession J → Bool) (m : Dict (WorkerSession J))
    → any (λ e. p e.1) (keep p m) ≡ false
unfolding keep
any-keep p [] = refl
any-keep p ((k, s) ∷ m) = elim (Bool-cases (p s)) [
  | inl goes ↦ rw goes (any-keep p m)
  | inr stays ↦ rw stays (ground (arith, any-keep p m, stays))
]

-- The sweep forgets a credential as soon as it is revoked: a session of it that was let in before, but
-- is not in the directory yet, is admitted after the sweep.
pub sweep-admits :
    {J : Type 0} (c : String) (g : SessionRegistry J) (s : WorkerSession J)
    → s.credential_id ≡ some c
    → (insert_session (step (step g (revoke c)) reap_revoked) s).1 ≡ true
unfolding step disconnect_credential reap_revoked_credentials insert_session revoked_session
sweep-admits c g s e =
    rw
      (
        e,
        contains-retain c _ (set_insert c g.revoked_credentials).0
            (any-keep (has_credential c) g.inner),
      )
      refl
