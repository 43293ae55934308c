-- ===== src/Authz/Reach.antt =====
-- Permissions narrower than the thing they would govern never admit (`permsReaching` of posts.go, as
-- `CheckStaffAtLeast` and `CheckPost` use it).
use e_campus_server.Prelude.{
  ℕ, ◌≡◌, ◌≢◌, ◌≤◌, true, false, ◌||◌, Option, none, some, List, arith, inl, inr, ok, try,
  find-keep, Option-cases, Result-cases,
}
use e_campus_server.Authz.Vocabulary.{Scope, Entity, scope_rank, eq_scope, wider_than}
use e_campus_server.Authz.Keys.{PolicyKey}
use e_campus_server.Authz.Policy.{StaffPermission, Policy, RoleClaim, Actor, Lineage, Decision}
use e_campus_server.Authz.Staff.{
  LineageReader, by_role_alone, in_same_unit, match_by_role_alone, match_same_unit, decide_staff,
  staff_by_unit, check_staff_arm, perms_reaching,
}
use e_campus_server.Authz.Engine.{
  PostFacts, Facts, post_scope_unit, is_read, unit_post, post_check, check_staff_at_least,
  post_target, check_post,
}

-- The actor holds a role at least as wide as `min`.
pub RoleReaches : Actor → Scope → Type 0
RoleReaches actor min =
    (role : RoleClaim) × (actor.role ≡ some role) × (scope_rank min ≤ scope_rank role.scope)

module _ (role : RoleClaim) (min : Scope) (p : StaffPermission) where
  -- A kept permission is as wide as `min`.
  reaching-le :
      (eq_scope p.scope min || wider_than p.scope min) ≡ true → scope_rank min ≤ scope_rank p.scope
  unfolding wider_than
  reaching-le h = ground arith

  by_role_alone-le : by_role_alone role p ≡ true → scope_rank p.scope ≤ scope_rank role.scope
  unfolding by_role_alone
  by_role_alone-le h = ground arith

  in_same_unit-le :
      (l : Option Lineage)
      → in_same_unit role l p ≡ true
      → scope_rank p.scope ≤ scope_rank role.scope
  unfolding in_same_unit scope_rank
  in_same_unit-le l h = ground arith

module _ (role : RoleClaim) (min : Scope) (perms : List StaffPermission) where
  alone-le :
      {p : StaffPermission}
      → match_by_role_alone role (perms_reaching perms min) ≡ some p
      → scope_rank min ≤ scope_rank role.scope
  unfolding match_by_role_alone perms_reaching
  alone-le {p} e =
      let (fits, wide) = find-keep _ _ perms {a = p} e in
      omega (arith, reaching-le role min p wide, by_role_alone-le role min p fits)

  unit-le :
      {p : StaffPermission} (l : Option Lineage)
      → match_same_unit role (perms_reaching perms min) l ≡ some p
      → scope_rank min ≤ scope_rank role.scope
  unfolding match_same_unit perms_reaching
  unit-le {p} l e =
      let (fits, wide) = find-keep _ _ perms {a = p} e in
      omega (arith, reaching-le role min p wide, in_same_unit-le role min p l fits)

  decide_unit-le :
      (l : Option Lineage)
      → (decide_staff role (match_same_unit role (perms_reaching perms min) l) l).allowed ≡ true
      → scope_rank min ≤ scope_rank role.scope
  decide_unit-le l h = elim (Option-cases (match_same_unit role (perms_reaching perms min) l)) [
    | inl e ↦ let k = rw e at h in absurd (unfold decide_staff in cc k)
    | inr (p, e) ↦ unit-le l e
  ]

  staff_by_unit-le :
      (lineage_for : LineageReader) (e : Entity) (target : Option ℕ) {d : Decision}
      → staff_by_unit lineage_for role e (perms_reaching perms min) target ≡ ok d
      → d.allowed ≡ true
      → scope_rank min ≤ scope_rank role.scope
  unfolding staff_by_unit
  staff_by_unit-le lineage_for e none {d} h a = ground (arith, decide_unit-le none)
  staff_by_unit-le lineage_for e (some id) {d} h a = elim (Result-cases (lineage_for e id)) [
    | inl (l, q) ↦ let k = rw q at h in ground (arith, decide_unit-le (some l))
    | inr (x, q) ↦ let k = rw q at h in ground arith
  ]

  arm-le :
      (lineage_for : LineageReader) (actor : Actor) (e : Entity) (target : Option ℕ) {d : Decision}
      → actor.role ≡ some role
      → check_staff_arm lineage_for actor e (perms_reaching perms min) target ≡ ok d
      → d.allowed ≡ true
      → scope_rank min ≤ scope_rank role.scope
  unfolding check_staff_arm
  arm-le lineage_for actor e target {d} staff h a =
      let k = rw staff at h in
      elim (Option-cases (match_by_role_alone role (perms_reaching perms min))) [
        | inl q ↦ staff_by_unit-le lineage_for e target {d = d} (rw q at k) a
        | inr (p, q) ↦ alone-le q
      ]

no_role-denied :
    (lineage_for : LineageReader) (actor : Actor) (e : Entity) (perms : List StaffPermission)
    (target : Option ℕ) {d : Decision}
    → actor.role ≡ none
    → check_staff_arm lineage_for actor e perms target ≡ ok d
    → d.allowed ≡ false
unfolding check_staff_arm
no_role-denied lineage_for actor e perms target {d} nobody h =
    let k = rw nobody at h in ground arith

check_staff_arm-RoleReaches :
    (lineage_for : LineageReader) (actor : Actor) (e : Entity) (perms : List StaffPermission)
    (min : Scope) (target : Option ℕ) {d : Decision}
    → check_staff_arm lineage_for actor e (perms_reaching perms min) target ≡ ok d
    → d.allowed ≡ true
    → RoleReaches actor min
unfolding RoleReaches
check_staff_arm-RoleReaches lineage_for actor e perms min target {d} h a =
    elim (Option-cases actor.role) [
      | inl nobody ↦
          let k =
            no_role-denied lineage_for actor e (perms_reaching perms min) target {d = d} nobody h in
          cc
      | inr (role, staff) ↦
          (role, staff, arm-le role min perms lineage_for actor e target {d = d} staff h a)
    ]

module _ (facts : Facts) (actor : Actor) (key : PolicyKey) where
  -- `CheckStaffAtLeast` allows only an actor whose role is at least as wide as the minimum.
  pub check_staff_at_least-RoleReaches :
      (min : Scope) {d : Decision}
      → check_staff_at_least facts actor key min ≡ ok d
      → d.allowed ≡ true
      → RoleReaches actor min
  unfolding check_staff_at_least
  check_staff_at_least-RoleReaches min {d} h a = elim (Result-cases (facts.policy_for key)) [
    | inl (policy, q) ↦
        check_staff_arm-RoleReaches facts.lineage_for actor key.resource policy.staff min none
          {d = d} (rw q at h) a
    | inr (e, q) ↦ let k = rw q at h in cc
  ]

  unit_post-RoleReaches :
      (policy : Policy) (post : PostFacts) (e : Entity) (min : Scope) {d : Decision}
      → post_scope_unit post.scope ≡ some (e, min)
      → is_read key ≡ false
      → unit_post facts actor key policy post ≡ ok d
      → d.allowed ≡ true
      → RoleReaches actor min
  unfolding unit_post
  unit_post-RoleReaches policy post e min {d} scope write h a =
      let target = post_target post.scope post.scope_id in
      let k = rw (scope, unit_post) at h in
      elim (Result-cases
        (check_staff_arm facts.lineage_for actor e (perms_reaching policy.staff min) target)) [
          | inl (d', q) ↦
              let k' = rw q at k in
              check_staff_arm-RoleReaches facts.lineage_for actor e policy.staff min target {d = d'}
                q (ground arith)
          | inr (x, q) ↦ let k' = rw q at k in cc
        ]

  post_check_unit :
      (post : PostFacts) (e : Entity) (min : Scope)
      → post_scope_unit post.scope ≡ some (e, min)
      → post.author_id ≢ actor.id
      → post_check facts actor key post
        ≡ try (facts.policy_for key) (λ policy. unit_post facts actor key policy post)
  unfolding post_check
  post_check_unit post e min scope other = ground arith

  -- On a post of a university, college, department or program that somebody else wrote, an action
  -- that is not a read is allowed only to an actor whose role is at least as wide as the post's
  -- own scope.
  pub check_post-RoleReaches :
      (post_id : ℕ) (post : PostFacts) (e : Entity) (min : Scope) {d : Decision}
      → facts.post_facts post_id ≡ ok post
      → post_scope_unit post.scope ≡ some (e, min)
      → post.author_id ≢ actor.id
      → is_read key ≡ false
      → check_post facts actor key post_id ≡ ok d
      → d.allowed ≡ true
      → RoleReaches actor min
  unfolding check_post
  check_post-RoleReaches post_id post e min {d} found scope other write h a =
      elim (Result-cases (facts.policy_for key)) [
        | inl (policy, q) ↦
            unit_post-RoleReaches policy post e min {d = d} scope write
              (rw (found, post_check_unit post e min scope other, q) at h) a
        | inr (x, q) ↦ let k = rw (found, post_check_unit post e min scope other, q) at h in cc
      ]
