-- ===== src/Journal/State/Names.antt =====
-- `state_str` and `parse_state` of crates/nagisalake-journal/src/state.rs.
use nagisa_lake.Prelude.{◌≡◌, refl, ok}
use nagisa_lake.Core.{
  JobState, queued, received, accepted, running, uploading, completed, failed, cancelled,
}
use nagisa_lake.Journal.State.{state_str, parse_state}

-- A written state is read back.
pub parse_state-state_str : (s : JobState) → parse_state (state_str s) ≡ ok s
unfolding parse_state state_str
parse_state-state_str queued = refl
parse_state-state_str received = refl
parse_state-state_str accepted = refl
parse_state-state_str running = refl
parse_state-state_str uploading = refl
parse_state-state_str completed = refl
parse_state-state_str failed = refl
parse_state-state_str cancelled = refl
