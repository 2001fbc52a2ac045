-- ===== src/Hub/Sessions/SessionKeys.antt =====
-- `session_key` of apps/nagisalake-hub/src/hub/sessions.rs tells the Workers of all organizations apart.
use nagisa_lake.Prelude.{◌≡◌, sym, ap, ◌∙◌, String, Lacks, join-single, join_injective}
use Prim.Native.String.{◌++◌ as join}
use nagisa_lake.Hub.Sessions.{session_key}

-- Two Workers have one key only if their organizations and their ids are the same, where the ids of
-- the organizations have no NUL in them.
pub session_key_injective :
    (o p v w : String)
    → Lacks "\0" o
    → Lacks "\0" p
    → session_key o v ≡ session_key p w
    → (o ≡ p) × (v ≡ w)
unfolding session_key
session_key_injective o p v w a b h =
    join_injective "\0" o p v w a b
      (sym (ap (join o) (join-single "\0" v)) ∙ h ∙ ap (join p) (join-single "\0" w))
