-- ===== src/Rpc/Code.antt =====
-- crates/nagisalake-rpc/src/status.rs: the status codes and their wire bytes.
use nagisa_lake.Prelude.{ℕ, ◌<◌, ◌≡◌, ◌≢◌, Option, none, some, arith, ◌==◌, if◌then◌else◌}

pub data Code : Type 0 where
  cancelled unknown invalid_argument deadline_exceeded not_found already_exists : Code
  permission_denied resource_exhausted failed_precondition unimplemented internal : Code
  unavailable unauthenticated : Code

unfoldable pub as_wire : Code → ℕ
as_wire cancelled = 1
as_wire unknown = 2
as_wire invalid_argument = 3
as_wire deadline_exceeded = 4
as_wire not_found = 5
as_wire already_exists = 6
as_wire permission_denied = 7
as_wire resource_exhausted = 8
as_wire failed_precondition = 9
as_wire unimplemented = 10
as_wire internal = 13
as_wire unavailable = 14
as_wire unauthenticated = 16

unfoldable pub from_wire : ℕ → Option Code
from_wire byte =
    if byte == 1
    then some cancelled
    else if byte == 2
    then some unknown
    else if byte == 3
    then some invalid_argument
    else if byte == 4
    then some deadline_exceeded
    else if byte == 5
    then some not_found
    else if byte == 6
    then some already_exists
    else if byte == 7
    then some permission_denied
    else if byte == 8
    then some resource_exhausted
    else if byte == 9
    then some failed_precondition
    else if byte == 10
    then some unimplemented
    else if byte == 13
    then some internal
    else if byte == 14
    then some unavailable
    else if byte == 16
    then some unauthenticated
    else none

-- The byte of a code is read back as that code, is one byte, and is not the byte of success.
pub from_wire-as_wire :
    (c : Code) → (from_wire (as_wire c) ≡ some c) × (as_wire c < 256) × (as_wire c ≢ 0)
unfolding from_wire as_wire
from_wire-as_wire c = ground arith

-- A byte that is read as a code is the byte of that code, so no two bytes stand for one code.
pub as_wire-from_wire : (byte : ℕ) (c : Code) → from_wire byte ≡ some c → as_wire c ≡ byte
unfolding from_wire as_wire
as_wire-from_wire byte c h = ground arith
