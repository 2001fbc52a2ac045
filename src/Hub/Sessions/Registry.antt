-- ===== src/Hub/Sessions/Registry.antt =====
-- apps/nagisalake-hub/src/hub/sessions.rs: sessions come and go.
use nagisa_lake.Prelude.{
  ℕ, ◌-◌, String, Bool, true, false, ◌=ˢ◌, not, Option, none, some, List, [], ◌∷◌, length, ltb, any,
  retain, map, if◌then◌else◌, Dict, get, put, remove, Result, ok, err, is_some,
}
use nagisa_lake.Hub.Sessions.{
  WorkerSession, SessionRegistry, StringSet, contains, set_insert, session_key, current,
}

-- Why a session was told to go: `ProtocolError::code`, after its `disconnect` was cancelled.
pub data Notice : Type 0 where
  session_replaced credential_revoked organization_deleted silent : Notice

-- A session that a call disconnects, with what it is told.
abbrev pub Dropped : Type 0 → Type 0
Dropped J = List (WorkerSession J × Notice)

pub data HubError : Type 0 where
  conflict : HubError

unfoldable pub has_credential : {J : Type 0} → String → WorkerSession J → Bool
has_credential c s = elim s.credential_id [ none ↦ false | some d ↦ d =ˢ c ]

unfoldable pub revoked_session : {J : Type 0} → StringSet → WorkerSession J → Bool
revoked_session revoked s = elim s.credential_id [ none ↦ false | some c ↦ contains c revoked ]

module _ {J : Type 0} where
  unfoldable pub insert_session :
      SessionRegistry J → WorkerSession J → SessionRegistry J × Bool × Dropped J
  insert_session reg s =
      let key = session_key s.view.organization_id s.view.worker_id in
      if revoked_session reg.revoked_credentials s then (reg, false, []) else (
        record reg { inner = put key s reg.inner },
        true,
        elim (get key reg.inner) [ none ↦ [] | some previous ↦ (previous, session_replaced) ∷ [] ],
      )

  -- The values that `retain` takes out, in the order of the walk.
  unfoldable pub taken : (WorkerSession J → Bool) → Dict (WorkerSession J) → List (WorkerSession J)
  taken goes [] = []
  taken goes ((k, s) ∷ m) = if goes s then s ∷ taken goes m else taken goes m

  unfoldable pub keep : (WorkerSession J → Bool) → Dict (WorkerSession J) → Dict (WorkerSession J)
  keep goes m = retain (λ e. not (goes e.1)) m

  unfoldable pub disconnect_credential : SessionRegistry J → String → SessionRegistry J × Dropped J
  unfolding taken keep
  disconnect_credential reg c = (
    record {
      inner = keep (has_credential c) reg.inner;
      revoked_credentials = (set_insert c reg.revoked_credentials).0;
    },
    map (λ s. (s, credential_revoked)) (taken (has_credential c) reg.inner),
  )

  -- The credentials that still have a live session stay listed; the number of the others.
  unfoldable pub reap_revoked_credentials : SessionRegistry J → SessionRegistry J × ℕ
  reap_revoked_credentials reg =
      let live = λ (c : String). any (λ e. has_credential c e.1) reg.inner in
      let kept = retain live reg.revoked_credentials in
      (record reg { revoked_credentials = kept }, length reg.revoked_credentials - length kept)

  unfoldable pub disconnect_organization :
      SessionRegistry J → String → SessionRegistry J × Dropped J
  unfolding taken keep
  disconnect_organization reg o =
      let goes = λ (s : WorkerSession J). s.view.organization_id =ˢ o in
      (
        record reg { inner = keep goes reg.inner },
        map (λ s. (s, organization_deleted)) (taken goes reg.inner),
      )

  unfoldable pub remove_if_current :
      SessionRegistry J → String → String → String → SessionRegistry J
  unfolding current
  remove_if_current reg o w session_id =
      if is_some (current reg o w session_id)
      then record reg { inner = remove (session_key o w) reg.inner }
      else reg

  unfoldable pub current_session_id : SessionRegistry J → String → String → Option String
  current_session_id reg o w = elim (get (session_key o w) reg.inner) [
    | none ↦ none
    | some s ↦ some s.view.session_id
  ]

  unfoldable pub update_heartbeat :
      SessionRegistry J
      → ℕ
      → String
      → String
      → String
      → ℕ
      → ℕ
      → SessionRegistry J × Result HubError (Unit {0})
  unfolding current
  update_heartbeat reg now o w session_id active queued = elim (current reg o w session_id) [
    | none ↦ (reg, err conflict)
    | some s ↦ (
      record reg {
        inner =
            put (session_key o w)
              (record s {
                view = record (s.view) { active_jobs = active; queued_jobs = queued };
                confirmed_capacity_reservations = [];
                last_seen = now;
              })
              reg.inner;
      },
      ok tt,
    )
  ]

  -- `now.saturating_duration_since(session.last_seen) > max_silence`.
  unfoldable pub is_stale : ℕ → ℕ → WorkerSession J → Bool
  is_stale now max_silence s = ltb max_silence (now - s.last_seen)

  unfoldable pub reap_stale : SessionRegistry J → ℕ → ℕ → SessionRegistry J × Dropped J
  unfolding is_stale taken keep
  reap_stale reg now max_silence = (
    record reg { inner = keep (is_stale now max_silence) reg.inner },
    map (λ s. (s, silent)) (taken (is_stale now max_silence) reg.inner),
  )
