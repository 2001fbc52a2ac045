-- ===== src/Examples/Jobs.antt =====
-- The life of a job on concrete states.
use nagisa_lake.Prelude.{[], ◌∷◌}
use nagisa_lake.Core.{running, accepted, completed}
use nagisa_lake.Core.Lifecycle.{◌⟶*◌, run_transitions, run_transitions-⟶*}
use nagisa_lake.Examples.Values.{job_record}

-- The second request is refused.
run_transitions-⟶*_example :
    job_record.state ⟶* (run_transitions job_record (accepted ∷ completed ∷ running ∷ [])).state
run_transitions-⟶*_example = run_transitions-⟶* job_record (accepted ∷ completed ∷ running ∷ [])
