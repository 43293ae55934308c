-- ===== src/Authz/Examples.antt =====
-- Tests of the checks, and the theorems on them at concrete actors and targets.
use e_campus_server.Prelude.{
  All, length, List, [], ◌∷◌, zero, suc, ◌≡◌, ◌≤◌, refl, true, false, none, some, List, [], ◌∷◌,
  arith, any, ok, err,
}
use e_campus_server.Authz.Vocabulary.{
  Level, Scope, Domain, OfferingRole, Entity, Action, level_rank,
}
use e_campus_server.Authz.Keys.{PolicyKey}
use e_campus_server.Authz.Policy.{
  by_staff, StaffPermission, RoleClaim, Actor, Lineage, Decision, deny,
}
use e_campus_server.Authz.Staff.{
  failure, LineageReader, by_role_alone, can_grant_role, can_manage_role, check_staff_arm,
  perms_reaching, decide_staff,
}
use e_campus_server.Authz.Engine.{
  Facts, PostFacts, PostScope, check_staff, check_staff_at_least, check_post, is_read,
  post_scope_unit, is_read, post_scope_unit,
}
use e_campus_server.Authz.Defaults.{static_policy_for}
use e_campus_server.Authz.Laziness.{
  allows, covers, check_staff_arm-eager, check_staff_arm-unresolved,
}
use e_campus_server.Authz.Grants.{hands_on, Inside, hands_on-ends, can_manage_role_asymm}
use e_campus_server.Authz.Reach.{
  RoleReaches, check_staff_at_least-RoleReaches, check_post-RoleReaches,
}
use e_campus_server.Authz.Audit.{writes_need_admin}

abbrev head : RoleClaim
head = record {
  level = Level.admin;
  scope = Scope.department;
  scope_id = some 7;
  domain = Domain.administration;
}

abbrev head_actor : Actor
head_actor = record { id = 1; role = some head }

abbrev rector : RoleClaim
rector = record {
  level = Level.admin;
  scope = Scope.university;
  scope_id = none;
  domain = Domain.administration;
}

abbrev rector_actor : Actor
rector_actor = record { id = 2; role = some rector }

abbrev clerk : RoleClaim
clerk = record {
  level = Level.viewer;
  scope = Scope.university;
  scope_id = none;
  domain = Domain.administration;
}

abbrev clerk_actor : Actor
clerk_actor = record { id = 3; role = some clerk }

abbrev in_department_7 : Lineage
in_department_7 = record { program = some 9; department = some 7; college = some 5 }

-- Everything lies in department 7, but nothing is known of the row 404.
abbrev campus_lineage : LineageReader
campus_lineage e zero = err (failure 0)
campus_lineage e (suc n) = ok in_department_7

abbrev university_post : PostFacts
university_post = record { author_id = 99; scope = PostScope.university; scope_id = none }

abbrev campus : Facts
campus = record {
  policy_for = static_policy_for;
  lineage_for = campus_lineage;
  relation_to = λ user offering. ok OfferingRole.unset;
  post_facts = λ id. ok university_post;
}

abbrev perms : List StaffPermission
perms =
    record { min_level = Level.admin; scope = Scope.department; domain = Domain.unset }
    ∷ record { min_level = Level.admin; scope = Scope.platform; domain = Domain.unset }
    ∷ []

abbrev update_post : PolicyKey
update_post = record { resource = Entity.post; action = Action.update }

check_staff_arm-eager_example :
    allows (check_staff_arm campus_lineage head_actor Entity.department perms (some 7))
    ≡ any (covers head in_department_7) perms
check_staff_arm-eager_example =
    check_staff_arm-eager campus_lineage 7 head head_actor refl Entity.department perms
      in_department_7 refl

check_staff_arm-unresolved_example :
    allows (check_staff_arm campus_lineage head_actor Entity.department perms (some 0))
    ≡ any (by_role_alone head) perms
check_staff_arm-unresolved_example =
    check_staff_arm-unresolved campus_lineage 0 head head_actor refl Entity.department perms
      (failure 0) refl

-- The platform's administrator makes a rector, who makes a dean, who makes a viewer.
abbrev appointed : List (Level × Scope)
appointed =
    (Level.admin, Scope.university)
    ∷ (Level.admin, Scope.college)
    ∷ (Level.viewer, Scope.program)
    ∷ []

hands_on-ends_example :
    All (Inside Level.super_admin Scope.platform) appointed × (length appointed ≤ 4)
unfolding hands_on can_grant_role
hands_on-ends_example = hands_on-ends Level.super_admin Scope.platform appointed refl

can_manage_role_asymm_example : can_manage_role campus_lineage (some head) (some rector) ≡ false
unfolding can_manage_role
can_manage_role_asymm_example = can_manage_role_asymm campus_lineage rector head refl

abbrev by_university : Decision
by_university = record deny {
  allowed = true;
  matched = some (
      by_staff
        (record { min_level = Level.admin; scope = Scope.university; domain = Domain.unset }));
}

rector_updates :
    check_staff_at_least campus rector_actor update_post Scope.university ≡ ok by_university
unfolding check_staff_at_least static_policy_for check_staff_arm perms_reaching decide_staff
rector_updates = refl

check_staff_at_least-RoleReaches_example : RoleReaches rector_actor Scope.university
check_staff_at_least-RoleReaches_example =
    check_staff_at_least-RoleReaches campus rector_actor update_post Scope.university
      {d = by_university} rector_updates refl

rector_posts : check_post campus rector_actor update_post 5 ≡ ok by_university
unfolding check_post static_policy_for check_staff_arm perms_reaching decide_staff
rector_posts = refl

check_post-RoleReaches_example : RoleReaches rector_actor Scope.university
unfolding is_read post_scope_unit
check_post-RoleReaches_example =
    check_post-RoleReaches campus rector_actor update_post 5 university_post Entity.university
      Scope.university {d = by_university} refl refl (omega arith) refl rector_posts refl

-- A department's admin is refused where the rector is allowed.
head_refused : check_post campus head_actor update_post 5 ≡ ok deny
unfolding check_post static_policy_for check_staff_arm perms_reaching decide_staff
head_refused = refl

writes_need_admin_example : check_staff campus clerk_actor update_post (some 3) ≡ ok deny
unfolding is_read level_rank
writes_need_admin_example =
    writes_need_admin campus clerk_actor clerk update_post (some 3) refl refl (omega arith) refl
