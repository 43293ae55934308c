-- ===== src/Authz/Policy.antt =====
-- internal/authz/policy.go and authz.go: policies, permissions, actors and decisions. A UUID is a
-- number, and `uuid.Nil` is 0.
use e_campus_server.Prelude.{ℕ, Bool, true, false, ◌&&◌, ◌||◌, Option, none, List}
use e_campus_server.Authz.Vocabulary.{
  Level, Scope, Domain, OfferingRole, Entity, Action, valid_level, valid_scope, valid_domain,
  valid_offering_role, valid_entity, valid_action, eq_scope, eq_domain, eq_role,
}

pub record StaffPermission : Type 0 where
  pub min_level : Level
  pub scope : Scope
  pub domain : Domain

pub record Policy : Type 0 where
  pub staff : List StaffPermission
  pub offering : List OfferingRole

pub data PermissionType : Type 0 where
  staff offering owner : PermissionType
  other : ℕ → PermissionType

pub record RoleClaim : Type 0 where
  pub level : Level
  pub scope : Scope
  pub scope_id : Option ℕ
  pub domain : Domain

pub record Actor : Type 0 where
  pub id : ℕ
  pub role : Option RoleClaim

pub record Lineage : Type 0 where
  pub program : Option ℕ
  pub department : Option ℕ
  pub college : Option ℕ

pub record ScopeFilter : Type 0 where
  pub program_id : Option ℕ
  pub department_id : Option ℕ
  pub college_id : Option ℕ

-- `MatchedPermission`, with the field that its `Type` selects.
pub data MatchedPermission : Type 0 where
  by_staff : StaffPermission → MatchedPermission
  by_offering : OfferingRole → MatchedPermission
  by_owner : MatchedPermission

pub record Decision : Type 0 where
  pub allowed : Bool
  pub relation : OfferingRole
  pub matched : Option MatchedPermission
  pub filter : ScopeFilter
  pub lineage : Option Lineage

abbrev pub no_filter : ScopeFilter
no_filter = record { program_id = none; department_id = none; college_id = none }

-- `Decision{}`
abbrev pub deny : Decision
deny = record {
  allowed = false;
  relation = OfferingRole.unset;
  matched = none;
  filter = no_filter;
  lineage = none;
}

pub record PermissionInput : Type 0 where
  pub resource : Entity
  pub action : Action
  pub type : PermissionType
  pub min_level : Level
  pub scope : Scope
  pub domain : Domain
  pub offering_role : OfferingRole

abbrev is_unset_level : Level → Bool
is_unset_level Level.unset = true
is_unset_level _ = false

valid_shape : PermissionType → PermissionInput → Bool
unfolding valid_level valid_scope valid_domain valid_offering_role
valid_shape PermissionType.staff p =
    eq_role p.offering_role OfferingRole.unset
    && valid_level p.min_level
    && valid_scope p.scope
    && (eq_domain p.domain Domain.unset || valid_domain p.domain)
valid_shape PermissionType.offering p =
    valid_offering_role p.offering_role
    && is_unset_level p.min_level
    && eq_scope p.scope Scope.unset
    && eq_domain p.domain Domain.unset
valid_shape _ p = false

unfoldable pub valid_permission : PermissionInput → Bool
unfolding valid_shape valid_entity valid_action
valid_permission p = valid_entity p.resource && valid_action p.action && valid_shape p.type p
