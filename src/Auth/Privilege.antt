-- ===== src/Auth/Privilege.antt =====
-- Who may do what, by crates/nagisalake-hub-auth/src/principal.rs.
use nagisa_lake.Prelude.{
  ◌≡◌, ◌≤◌, refl, ap, sym, true, any, ◌=ˢ◌, [], ◌∷◌, String, if◌then◌else◌, Option, none, some,
  eq_iff, arith,
}
use nagisa_lake.Auth.{
  Role, Permission, Principal, rank, allows, at_least, is_owner, scope, is_api_key,
  principal_allows, workflows_read, workflows_publish, jobs_read_organization, jobs_write,
  jobs_cancel_own, jobs_cancel_any, artifacts_read, artifacts_write, workers_manage, members_manage,
  api_keys_manage_own, api_keys_manage, quota_read, quota_manage, audit_read, organization_delete,
  devices_read, devices_use, devices_register_own, devices_share_own,
}

allows_mono :
    (r s : Role) (p : Permission) → rank r ≤ rank s → allows r p ≡ true → allows s p ≡ true
unfolding allows rank at_least is_owner
allows_mono r s p h a = ground arith

-- A principal of the same kind, with a role of at least the same rank and at least the same scopes,
-- may do whatever the first one may.
pub principal_allows_mono :
    (p q : Principal) (x : Permission)
    → q.kind ≡ p.kind
    → rank p.role ≤ rank q.role
    → ((s : String) → any (λ t. t =ˢ s) p.scopes ≡ true → any (λ t. t =ˢ s) q.scopes ≡ true)
    → principal_allows p x ≡ true
    → principal_allows q x ≡ true
unfolding principal_allows
principal_allows_mono p q x k h wider a =
    ground (arith, allows_mono p.role q.role x h, wider (scope x), ap is_api_key k)

-- The permission on one's own things that shares its scope with the one on all things.
unfoldable pub own : Permission → Permission
own jobs_cancel_any = jobs_cancel_own
own api_keys_manage = api_keys_manage_own
own p = p

from_scope : String → Option Permission
from_scope s =
    if s =ˢ "workflows:read"
    then some workflows_read
    else if s =ˢ "workflows:write"
    then some workflows_publish
    else if s =ˢ "jobs:read"
    then some jobs_read_organization
    else if s =ˢ "jobs:write"
    then some jobs_write
    else if s =ˢ "jobs:cancel"
    then some jobs_cancel_own
    else if s =ˢ "artifacts:read"
    then some artifacts_read
    else if s =ˢ "artifacts:write"
    then some artifacts_write
    else if s =ˢ "workers:manage"
    then some workers_manage
    else if s =ˢ "members:manage"
    then some members_manage
    else if s =ˢ "api_keys:manage"
    then some api_keys_manage_own
    else if s =ˢ "quota:read"
    then some quota_read
    else if s =ˢ "quota:manage"
    then some quota_manage
    else if s =ˢ "audit:read"
    then some audit_read
    else if s =ˢ "organizations:delete"
    then some organization_delete
    else if s =ˢ "devices:read"
    then some devices_read
    else if s =ˢ "devices:use"
    then some devices_use
    else if s =ˢ "devices:register"
    then some devices_register_own
    else if s =ˢ "devices:share"
    then some devices_share_own
    else none

from_scope-scope : (p : Permission) → from_scope (scope p) ≡ some (own p)
unfolding from_scope scope own
from_scope-scope workflows_read = refl
from_scope-scope workflows_publish = refl
from_scope-scope jobs_read_organization = refl
from_scope-scope jobs_write = refl
from_scope-scope jobs_cancel_own = refl
from_scope-scope jobs_cancel_any = refl
from_scope-scope artifacts_read = refl
from_scope-scope artifacts_write = refl
from_scope-scope workers_manage = refl
from_scope-scope members_manage = refl
from_scope-scope api_keys_manage_own = refl
from_scope-scope api_keys_manage = refl
from_scope-scope quota_read = refl
from_scope-scope quota_manage = refl
from_scope-scope audit_read = refl
from_scope-scope organization_delete = refl
from_scope-scope devices_read = refl
from_scope-scope devices_use = refl
from_scope-scope devices_register_own = refl
from_scope-scope devices_share_own = refl

same_scope : (p q : Permission) → scope p ≡ scope q → own p ≡ own q
same_scope p q h = cc (from_scope-scope p, from_scope-scope q, ap from_scope h)

-- An API key with the scope of one permission alone may do nothing but that, and what differs from it
-- only in being about one's own things or about all things.
pub principal_allows-scope :
    (k : Principal) (p q : Permission)
    → is_api_key k.kind ≡ true
    → k.scopes ≡ scope p ∷ []
    → principal_allows k q ≡ true
    → own q ≡ own p
unfolding principal_allows
principal_allows-scope k p q a s h = same_scope q p (sym ((eq_iff (scope p) (scope q)).0 only))
  where
    only : (scope p =ˢ scope q) ≡ true
    only = ground (arith, s)
