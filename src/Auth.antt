-- ===== src/Auth.antt =====
-- crates/nagisalake-hub-auth/src/principal.rs: roles, permissions and principals.
pub mod Roles
pub mod Privilege
use nagisa_lake.Prelude.{
  ℕ, String, Bool, true, false, not, ◌||◌, ◌=ˢ◌, leb, any, List, Option, Result, ok, err,
  if◌then◌else◌,
}

pub data Role : Type 0 where
  viewer member operator admin owner : Role

unfoldable pub rank : Role → ℕ  -- u8
rank viewer = 0
rank member = 1
rank operator = 2
rank admin = 3
rank owner = 4

pub data Permission : Type 0 where
  workflows_read workflows_publish jobs_read_organization jobs_write jobs_cancel_own : Permission
  jobs_cancel_any artifacts_read artifacts_write workers_manage members_manage : Permission
  api_keys_manage_own api_keys_manage quota_read quota_manage audit_read : Permission
  organization_delete devices_read devices_use devices_register_own devices_share_own : Permission

unfoldable pub is_owner : Role → Bool
is_owner owner = true
is_owner _ = false

-- `self.rank() >= least.rank()`.
unfoldable pub at_least : Role → Role → Bool
unfolding rank
at_least self least = leb (rank least) (rank self)

unfoldable pub allows : Role → Permission → Bool
unfolding at_least is_owner
allows r workflows_read = at_least r viewer
allows r jobs_read_organization = at_least r viewer
allows r quota_read = at_least r viewer
allows r jobs_write = at_least r member
allows r jobs_cancel_own = at_least r member
allows r artifacts_read = at_least r member
allows r artifacts_write = at_least r member
allows r api_keys_manage_own = at_least r member
allows r devices_read = at_least r member
allows r devices_use = at_least r member
allows r devices_register_own = at_least r member
allows r devices_share_own = at_least r member
allows r jobs_cancel_any = at_least r operator
allows r workers_manage = at_least r operator
allows r workflows_publish = at_least r operator
allows r members_manage = at_least r admin
allows r api_keys_manage = at_least r admin
allows r quota_manage = at_least r admin
allows r audit_read = at_least r admin
allows r organization_delete = is_owner r

-- `Display`.
unfoldable pub role_str : Role → String
role_str viewer = "viewer"
role_str member = "member"
role_str operator = "operator"
role_str admin = "admin"
role_str owner = "owner"

pub data AuthError : Type 0 where
  invalid_role : String → AuthError

-- `FromStr`.
unfoldable pub parse_role : String → Result AuthError Role
parse_role value =
    if value =ˢ "viewer"
    then ok viewer
    else if value =ˢ "member"
    then ok member
    else if value =ˢ "operator"
    then ok operator
    else if value =ˢ "admin"
    then ok admin
    else if value =ˢ "owner"
    then ok owner
    else err (invalid_role value)

unfoldable pub scope : Permission → String
scope workflows_read = "workflows:read"
scope workflows_publish = "workflows:write"
scope jobs_read_organization = "jobs:read"
scope jobs_write = "jobs:write"
scope jobs_cancel_own = "jobs:cancel"
scope jobs_cancel_any = "jobs:cancel"
scope artifacts_read = "artifacts:read"
scope artifacts_write = "artifacts:write"
scope workers_manage = "workers:manage"
scope members_manage = "members:manage"
scope api_keys_manage_own = "api_keys:manage"
scope api_keys_manage = "api_keys:manage"
scope quota_read = "quota:read"
scope quota_manage = "quota:manage"
scope audit_read = "audit:read"
scope organization_delete = "organizations:delete"
scope devices_read = "devices:read"
scope devices_use = "devices:use"
scope devices_register_own = "devices:register"
scope devices_share_own = "devices:share"

pub data PrincipalKind : Type 0 where
  browser_session api_key worker_credential legacy_token : PrincipalKind

pub record Principal : Type 0 where
  pub kind : PrincipalKind
  pub actor_id : String
  pub user_id : Option String
  pub organization_id : String
  pub role : Role
  pub scopes : List String

unfoldable pub is_api_key : PrincipalKind → Bool
is_api_key api_key = true
is_api_key _ = false

unfoldable pub principal_allows : Principal → Permission → Bool
unfolding is_api_key
principal_allows p permission =
    if not (allows p.role permission)
    then false
    else (not (is_api_key p.kind) || any (λ s. s =ˢ scope permission) p.scopes)
