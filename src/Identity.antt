-- ===== src/Identity.antt =====
-- src/ap_auth/roles.py and src/ap_auth/identity.py: roles, identities, and the role check that
-- every workflow makes.
use analysis_package.Base.{String, Bool, false, ◌||◌, not, str_eq, if◌then◌else◌}
use analysis_package.Base.Exec.{Result, ok, err}

pub data Role : Type 0 where
  analyst reviewer team_reader company_reader standard_approver admin : Role

-- `frozenset[Role]`: which of the six roles are in it
pub record RoleSet : Type 0 where
  pub analyst : Bool
  pub reviewer : Bool
  pub team_reader : Bool
  pub company_reader : Bool
  pub standard_approver : Bool
  pub admin : Bool

-- `role in roles`
unfoldable pub role_in : Role → RoleSet → Bool
role_in Role.analyst roles = roles.analyst
role_in Role.reviewer roles = roles.reviewer
role_in Role.team_reader roles = roles.team_reader
role_in Role.company_reader roles = roles.company_reader
role_in Role.standard_approver roles = roles.standard_approver
role_in Role.admin roles = roles.admin

abbrev pub no_roles : RoleSet
no_roles = record {
  analyst = false;
  reviewer = false;
  team_reader = false;
  company_reader = false;
  standard_approver = false;
  admin = false;
}

-- the truth value of a set of roles: it is not empty
unfoldable pub any_role : RoleSet → Bool
any_role roles =
    roles.analyst || roles.reviewer || roles.team_reader || roles.company_reader
    || roles.standard_approver || roles.admin

pub record Identity : Type 0 where
  pub id : String
  pub roles : RoleSet

pub data IdentityError : Type 0 where
  empty_id empty_roles unknown_role : IdentityError

-- `Identity(id=…, roles=…)`, with the checks of `__post_init__`
unfoldable pub new_identity : String → RoleSet → Result IdentityError Identity
unfolding any_role
new_identity id roles =
    if str_eq id ""
    then err empty_id
    else if not (any_role roles)
    then err empty_roles
    else ok (record { id = id; roles = roles })

-- `Identity.has_role`: the role itself, or admin
unfoldable pub has_role : Identity → Role → Bool
unfolding role_in
has_role actor role = role_in role actor.roles || role_in Role.admin actor.roles
