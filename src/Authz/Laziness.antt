-- ===== src/Authz/Laziness.antt =====
-- `checkStaffArm` fetches the target's lineage only when it could decide. Here the answer is compared
-- with the eager rule that fetches it first and judges each permission on its own.
use e_campus_server.Prelude.{
  ℕ, ◌≡◌, refl, ◌∙◌, Bool, true, false, ◌||◌, Option, none, some, List, arith, inl, inr, is_set,
  find, any, Result, ok, err, is_set-find, any-or, any_mono, Bool-cases, Option-cases,
}
use e_campus_server.Authz.Vocabulary.{Entity}
use e_campus_server.Authz.Policy.{StaffPermission, RoleClaim, Actor, Lineage, Decision}
use e_campus_server.Authz.Staff.{
  Error, LineageReader, by_role_alone, in_same_unit, could_match_same_unit, match_by_role_alone,
  match_same_unit, decide_staff, staff_by_unit, check_staff_arm,
}

-- An error denies.
abbrev pub allows : Result Error Decision → Bool
allows (ok d) = d.allowed
allows (err e) = false

-- The eager rule for one permission.
abbrev pub covers : RoleClaim → Lineage → StaffPermission → Bool
covers role l p = by_role_alone role p || in_same_unit role (some l) p

allowed-decide_staff :
    (role : RoleClaim) (m : Option StaffPermission) (l : Option Lineage)
    → (decide_staff role m l).allowed ≡ is_set m
unfolding decide_staff
allowed-decide_staff role none l = refl
allowed-decide_staff role (some p) l = refl

-- Where the guard of the lookup says no, the lookup could not have found a permission.
could_match_complete :
    (role : RoleClaim) (perms : List StaffPermission) (l : Lineage)
    → any (in_same_unit role (some l)) perms ≡ true
    → could_match_same_unit role perms ≡ true
unfolding could_match_same_unit in_same_unit
could_match_complete role perms l = any_mono _ _ (λ p h. ground arith) perms

module _ (lineage_for : LineageReader) (id : ℕ) (role : RoleClaim) (actor : Actor)
    (staff : actor.role ≡ some role) where
  arm_cases :
      (resource : Entity) (perms : List StaffPermission)
      → allows (check_staff_arm lineage_for actor resource perms (some id)) ≡ (
          any (by_role_alone role) perms
          || allows (staff_by_unit lineage_for role resource perms (some id)))
  unfolding check_staff_arm match_by_role_alone
  arm_cases resource perms = elim (Option-cases (find (by_role_alone role) perms)) [
    | inl e ↦ rw (staff, e) (ground (arith, is_set-find (by_role_alone role) perms))
    | inr (p, e) ↦ rw (staff, e) (ground (arith, is_set-find (by_role_alone role) perms))
  ]

  by_unit-eager :
      (resource : Entity) (perms : List StaffPermission) (l : Lineage)
      → lineage_for resource id ≡ ok l
      → allows (staff_by_unit lineage_for role resource perms (some id))
        ≡ any (in_same_unit role (some l)) perms
  unfolding staff_by_unit match_same_unit
  by_unit-eager resource perms l e = elim (Bool-cases (could_match_same_unit role perms)) [
    | inl may ↦
        rw (may, e) (allowed-decide_staff role _ _ ∙ is_set-find (in_same_unit role (some l)) perms)
    | inr never ↦ rw never (ground (arith, could_match_complete role perms l))
  ]

  -- When the target's lineage resolves, an actor with a staff role is allowed on a single row
  -- exactly when some permission of the policy covers the row under the eager rule.
  pub check_staff_arm-eager :
      (resource : Entity) (perms : List StaffPermission) (l : Lineage)
      → lineage_for resource id ≡ ok l
      → allows (check_staff_arm lineage_for actor resource perms (some id))
        ≡ any (covers role l) perms
  check_staff_arm-eager resource perms l e = rw (
    arm_cases resource perms,
    by_unit-eager resource perms l e,
    any-or (by_role_alone role) (in_same_unit role (some l)) perms,
  )

  -- When the lineage does not resolve, the actor is allowed exactly when some permission matches
  -- by the role alone: the failure never admits.
  pub check_staff_arm-unresolved :
      (resource : Entity) (perms : List StaffPermission) (e : Error)
      → lineage_for resource id ≡ err e
      → allows (check_staff_arm lineage_for actor resource perms (some id))
        ≡ any (by_role_alone role) perms
  unfolding staff_by_unit
  check_staff_arm-unresolved resource perms e h = rw (arm_cases resource perms, h) (ground arith)
