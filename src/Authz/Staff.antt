-- ===== src/Authz/Staff.antt =====
-- internal/authz/staff.go: the institutional arm. A role is a point in the space of level, domain and
-- scope; a permission marks a region of it.
use e_campus_server.Prelude.{
  ℕ, Bool, true, false, ◌&&◌, ◌||◌, not, Option, none, some, List, ◌==◌, if◌then◌else◌, is_set,
  value_or, find, any, keep, Result, ok, err, try,
}
use e_campus_server.Authz.Vocabulary.{
  Level, Scope, Domain, OfferingRole, Entity, level_rank, at_least, wider_than, valid_level,
  valid_scope, eq_scope, eq_domain, ltb_rank,
}
use e_campus_server.Authz.Policy.{
  StaffPermission, RoleClaim, Actor, Lineage, ScopeFilter, by_staff, Decision, deny, no_filter,
}

-- errors.go, and any failure of the database.
pub data Error : Type 0 where
  target_not_found permission_not_found permission_exists invalid_permission policies_read_only :
      Error
  failure : ℕ → Error

abbrev pub LineageReader : Type 0
LineageReader = Entity → ℕ → Result Error Lineage

-- `Lineage.IDFor`; 0 is `uuid.Nil`.
unfoldable pub id_for : Lineage → Scope → ℕ
id_for l Scope.program = value_or l.program 0
id_for l Scope.department = value_or l.department 0
id_for l Scope.college = value_or l.college 0
id_for l _ = 0

unfoldable pub can_grant_role : Level → Scope → Level → Scope → Bool
unfolding valid_level valid_scope at_least wider_than
can_grant_role actor_level actor_scope target_level target_scope =
    if not (valid_level actor_level)
      || not (valid_level target_level)
      || not (valid_scope actor_scope)
      || not (valid_scope target_scope)
    then false
    else at_least actor_level target_level && wider_than actor_scope target_scope

unfoldable pub meets_level_and_domain : RoleClaim → StaffPermission → Bool
unfolding at_least
meets_level_and_domain role p =
    at_least role.level p.min_level
    && (eq_domain p.domain Domain.unset || eq_domain role.domain p.domain)

-- The test in the loop of `matchByRoleAlone`.
unfoldable pub by_role_alone : RoleClaim → StaffPermission → Bool
unfolding meets_level_and_domain wider_than
by_role_alone role p =
    meets_level_and_domain role p
    && (wider_than role.scope p.scope
        || (eq_scope role.scope p.scope
            && not (is_set role.scope_id)
            && (eq_scope p.scope Scope.university || eq_scope p.scope Scope.platform)))

unfoldable pub match_by_role_alone : RoleClaim → List StaffPermission → Option StaffPermission
unfolding by_role_alone
match_by_role_alone role perms = find (by_role_alone role) perms

abbrev unit_matches : Option ℕ → Option Lineage → Scope → Bool
unit_matches none target scope = false
unit_matches (some unit) none scope = true
unit_matches (some unit) (some lineage) scope = unit == id_for lineage scope

-- The test in the loop of `matchSameUnit`; no lineage means a collection route.
unfoldable pub in_same_unit : RoleClaim → Option Lineage → StaffPermission → Bool
unfolding meets_level_and_domain
in_same_unit role target p =
    meets_level_and_domain role p
    && eq_scope role.scope p.scope
    && unit_matches role.scope_id target p.scope

unfoldable pub match_same_unit :
    RoleClaim → List StaffPermission → Option Lineage → Option StaffPermission
unfolding in_same_unit
match_same_unit role perms target = find (in_same_unit role target) perms

unfoldable pub could_match_same_unit : RoleClaim → List StaffPermission → Bool
unfolding meets_level_and_domain
could_match_same_unit role perms =
    any (λ p. meets_level_and_domain role p && eq_scope role.scope p.scope && is_set role.scope_id)
      perms

scope_filter : Scope → Option ℕ → ScopeFilter
scope_filter Scope.program id = record no_filter { program_id = id }
scope_filter Scope.department id = record no_filter { department_id = id }
scope_filter Scope.college id = record no_filter { college_id = id }
scope_filter _ id = no_filter

unfoldable pub filter_for : RoleClaim → ScopeFilter
unfolding scope_filter
filter_for role = scope_filter role.scope role.scope_id

-- The end of `checkStaffArm`.
unfoldable pub decide_staff : RoleClaim → Option StaffPermission → Option Lineage → Decision
unfolding filter_for
decide_staff role none fetched = deny
decide_staff role (some p) fetched = record {
  allowed = true;
  relation = OfferingRole.unset;
  matched = some (by_staff p);
  filter = filter_for role;
  lineage = fetched;
}

-- `permsReaching` of posts.go.
unfoldable pub perms_reaching : List StaffPermission → Scope → List StaffPermission
unfolding wider_than
perms_reaching perms min = keep (λ p. eq_scope p.scope min || wider_than p.scope min) perms

unfoldable pub scope_entity : Scope → Option Entity
scope_entity Scope.program = some Entity.program
scope_entity Scope.department = some Entity.department
scope_entity Scope.college = some Entity.college
scope_entity _ = none

module _ (lineage_for : LineageReader) where
  -- What is left of `checkStaffArm` when no permission matches by the role alone.
  unfoldable pub staff_by_unit :
      RoleClaim → Entity → List StaffPermission → Option ℕ → Result Error Decision
  unfolding match_same_unit decide_staff could_match_same_unit
  staff_by_unit role resource perms none =
      ok (decide_staff role (match_same_unit role perms none) none)
  staff_by_unit role resource perms (some id) =
      if could_match_same_unit role perms
      then (try (lineage_for resource id)
          (λ l. ok (decide_staff role (match_same_unit role perms (some l)) (some l))))
      else ok deny

  staff_arm_of :
      RoleClaim
      → Option StaffPermission
      → Entity
      → List StaffPermission
      → Option ℕ
      → Result Error Decision
  unfolding staff_by_unit
  staff_arm_of role (some p) resource perms target = ok (decide_staff role (some p) none)
  staff_arm_of role none resource perms target = staff_by_unit role resource perms target

  unfoldable pub check_staff_arm :
      Actor → Entity → List StaffPermission → Option ℕ → Result Error Decision
  unfolding staff_arm_of match_by_role_alone
  check_staff_arm actor resource perms target = elim actor.role [
    | none ↦ ok deny
    | some role ↦ staff_arm_of role (match_by_role_alone role perms) resource perms target
  ]

  -- A resolution error denies.
  unit_matches_parent : Option ℕ → ℕ → Bool
  unit_matches_parent none parent = false
  unit_matches_parent (some unit) parent = not (parent == 0) && unit == parent

  unfoldable pub unit_inside_actor : RoleClaim → Scope → ℕ → Bool
  unfolding unit_matches_parent scope_entity id_for
  unit_inside_actor actor target_scope target_unit = elim (scope_entity target_scope) [
    | none ↦ false
    | some entity ↦ elim (lineage_for entity target_unit) [
      | err e ↦ false
      | ok l ↦ unit_matches_parent actor.scope_id (id_for l actor.scope)
    ]
  ]

  manage_wider : RoleClaim → RoleClaim → Option ℕ → Bool
  unfolding at_least unit_inside_actor
  manage_wider actor target none = at_least actor.level target.level
  manage_wider actor target (some unit) =
      at_least actor.level target.level
      && (eq_scope actor.scope Scope.platform
          || eq_scope actor.scope Scope.university
          || unit_inside_actor actor target.scope unit)

  abbrev other_unit : Option ℕ → Option ℕ → Bool
  other_unit (some a) (some b) = not (a == b)
  other_unit _ _ = false

  -- `CanManageRole` on claims that are not nil; `can_manage_role` has the nil case.
  unfoldable pub can_manage_claim : RoleClaim → RoleClaim → Bool
  unfolding wider_than manage_wider level_rank
  can_manage_claim actor target =
      if wider_than actor.scope target.scope
      then manage_wider actor target target.scope_id
      else if eq_scope actor.scope target.scope
      then not (other_unit actor.scope_id target.scope_id) && ltb_rank target.level actor.level
      else false

  unfoldable pub can_manage_role : Option RoleClaim → Option RoleClaim → Bool
  unfolding can_manage_claim
  can_manage_role (some actor) (some target) = can_manage_claim actor target
  can_manage_role _ _ = false
