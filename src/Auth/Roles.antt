-- ===== src/Auth/Roles.antt =====
-- The names of roles in crates/nagisalake-hub-auth/src/principal.rs.
use nagisa_lake.Prelude.{◌≡◌, refl, ◌↔◌, String, ok, eq_iff, arith}
use nagisa_lake.Auth.{Role, role_str, parse_role, viewer, member, operator, admin, owner}

parse_role-role_str : (r : Role) → parse_role (role_str r) ≡ ok r
unfolding parse_role role_str
parse_role-role_str viewer = refl
parse_role-role_str member = refl
parse_role-role_str operator = refl
parse_role-role_str admin = refl
parse_role-role_str owner = refl

role_str-parse_role : (s : String) (r : Role) → parse_role s ≡ ok r → s ≡ role_str r
unfolding parse_role role_str
role_str-parse_role s r h = ground (
  arith,
  eq_iff s "viewer",
  eq_iff s "member",
  eq_iff s "operator",
  eq_iff s "admin",
  eq_iff s "owner",
)

-- A text is parsed to a role exactly if it is what the role is displayed as.
pub parse_role_iff : (s : String) (r : Role) → (parse_role s ≡ ok r) ↔ (s ≡ role_str r)
parse_role_iff s r = (role_str-parse_role s r, λ e. rw e (parse_role-role_str r))
