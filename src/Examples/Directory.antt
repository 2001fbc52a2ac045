-- ===== src/Examples/Directory.antt =====
-- The directory of sessions on concrete calls.
use nagisa_lake.Prelude.{◌≡◌, refl, true, false, [], ◌∷◌, arith, AllValues, get, put, Distinct, ℕ}
use nagisa_lake.Protocol.Messages.{total_capacity}
use nagisa_lake.Hub.Sessions.{
  session_key, set_remove, current, capacity_reservation_count, SessionRegistry,
  worker_capacity_load,
}
use nagisa_lake.Hub.Sessions.Registry.{insert_session, revoked_session, has_credential}
use nagisa_lake.Hub.Sessions.Reserve.{least_loaded}
use nagisa_lake.Hub.Sessions.Machine.{
  reap_revoked, empty, step, run, join, reserve_on, heartbeat, revoke, Reachable, started, stepped,
  Within,
}
use nagisa_lake.Hub.Sessions.Selection.{LeastOption, least_loaded-LeastOption}
use nagisa_lake.Hub.Sessions.Capacity.{Reachable-Within}
use nagisa_lake.Hub.Sessions.Revocation.{revoke-absent, sweep-admits}
use nagisa_lake.Examples.Values.{session_of}

least_loaded-LeastOption_example :
    LeastOption
      (λ v. true)
      (("a", session_of "w1" 2) ∷ ("b", session_of "w2" 1) ∷ [])
      (least_loaded (λ v. true) (("a", session_of "w1" 2) ∷ ("b", session_of "w2" 1) ∷ []))
unfolding get
least_loaded-LeastOption_example =
    least_loaded-LeastOption (λ v. true) (("a", session_of "w1" 2) ∷ ("b", session_of "w2" 1) ∷ [])
      (refl, (refl, tt))

abbrev joined : SessionRegistry ℕ
joined = step empty (join (session_of "w1" 1))

abbrev beaten : SessionRegistry ℕ
beaten = step joined (heartbeat 12 "org" "w1" "s1" 2 0)

abbrev reserved_once : SessionRegistry ℕ
reserved_once = step beaten (reserve_on "org" "w1" "command" (λ v. true))

reserved_once-Reachable : Reachable reserved_once
unfolding worker_capacity_load capacity_reservation_count total_capacity step empty insert_session
    revoked_session current get put session_key set_remove
reserved_once-Reachable =
    stepped (reserve_on "org" "w1" "command" (λ v. true))
      (stepped (heartbeat 12 "org" "w1" "s1" 2 0)
        (stepped (join (session_of "w1" 1)) (started refl) (omega arith) refl) (omega arith) refl)
      tt refl

Reachable-Within_example : Distinct reserved_once.inner × Within reserved_once
Reachable-Within_example = Reachable-Within reserved_once reserved_once-Reachable

revoke-absent_example :
    AllValues
      (λ s. has_credential "cred" s ≡ false)
      (run (step joined (revoke "cred")) (join (session_of "w1" 0) ∷ [])).inner
revoke-absent_example = revoke-absent "cred" joined (join (session_of "w1" 0) ∷ []) refl

sweep-admits_example :
    (insert_session (step (step joined (revoke "cred")) reap_revoked) (session_of "w1" 0)).1 ≡ true
sweep-admits_example = sweep-admits "cred" joined (session_of "w1" 0) refl
