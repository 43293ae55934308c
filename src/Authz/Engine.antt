-- ===== src/Authz/Engine.antt =====
-- internal/authz: the checks (staff.go, classroom.go, posts.go), over the facts that the ports
-- `PolicyStore` and `Readers` answer.
use e_campus_server.Prelude.{
  ℕ, Bool, true, false, ◌&&◌, ◌||◌, not, Option, none, some, List, ◌==◌, if◌then◌else◌, any, Result,
  ok, try,
}
use e_campus_server.Authz.Vocabulary.{Scope, OfferingRole, Entity, Action, eq_role}
use e_campus_server.Authz.Keys.{PolicyKey, eq_action}
use e_campus_server.Authz.Policy.{Policy, Actor, by_offering, by_owner, Decision, deny}
use e_campus_server.Authz.Staff.{Error, LineageReader, check_staff_arm, perms_reaching}

-- `other` is any string that is no post scope.
pub data PostScope : Type 0 where
  university college department program offering : PostScope
  other : ℕ → PostScope

pub record PostFacts : Type 0 where
  pub author_id : ℕ
  pub scope : PostScope
  pub scope_id : Option ℕ

-- The ports, as functions that may fail.
pub record Facts : Type 0 where
  pub policy_for : PolicyKey → Result Error Policy
  pub lineage_for : LineageReader
  pub relation_to : ℕ → ℕ → Result Error OfferingRole
  pub post_facts : ℕ → Result Error PostFacts

unfoldable pub holds_seat : OfferingRole → List OfferingRole → Bool
holds_seat seat seats = not (eq_role seat OfferingRole.unset) && any (eq_role seat) seats

unfoldable pub seat_decision : OfferingRole → Decision
seat_decision seat = record deny {
  allowed = true;
  relation = seat;
  matched = some (by_offering seat);
}

unfoldable pub post_scope_unit : PostScope → Option (Entity × Scope)
post_scope_unit PostScope.university = some (Entity.university, Scope.university)
post_scope_unit PostScope.college = some (Entity.college, Scope.college)
post_scope_unit PostScope.department = some (Entity.department, Scope.department)
post_scope_unit PostScope.program = some (Entity.program, Scope.program)
post_scope_unit _ = none

abbrev is_offering : PostScope → Bool
is_offering PostScope.offering = true
is_offering _ = false

-- A university post names no unit.
abbrev pub post_target : PostScope → Option ℕ → Option ℕ
post_target PostScope.university id = none
post_target _ id = id

unfoldable pub is_read : PolicyKey → Bool
is_read key = eq_action key.action Action.get || eq_action key.action Action.list

module _ (facts : Facts) where
  unfoldable pub check_staff : Actor → PolicyKey → Option ℕ → Result Error Decision
  check_staff actor key target =
      try (facts.policy_for key)
        λ policy. check_staff_arm facts.lineage_for actor key.resource policy.staff target

  unfoldable pub check_staff_on : Actor → PolicyKey → Entity → Option ℕ → Result Error Decision
  check_staff_on actor key on target =
      try (facts.policy_for key)
        λ policy. check_staff_arm facts.lineage_for actor on policy.staff target

  unfoldable pub check_staff_at_least : Actor → PolicyKey → Scope → Result Error Decision
  check_staff_at_least actor key min = try (facts.policy_for key) λ policy.
      check_staff_arm facts.lineage_for actor key.resource (perms_reaching policy.staff min) none

  -- The two arms once the seat is known, which `CheckOffering` and `CheckPost` share.
  unfoldable pub seat_or_staff : Actor → Policy → OfferingRole → ℕ → Result Error Decision
  unfolding holds_seat seat_decision
  seat_or_staff actor policy seat offering_id =
      if holds_seat seat policy.offering
      then ok (seat_decision seat)
      else check_staff_arm facts.lineage_for actor Entity.offering policy.staff (some offering_id)

  unfoldable pub check_offering : Actor → PolicyKey → ℕ → Result Error Decision
  unfolding seat_or_staff
  check_offering actor key offering_id = try (facts.policy_for key) λ policy.
      try (facts.relation_to actor.id offering_id)
        λ seat. seat_or_staff actor policy seat offering_id

  -- Class feeds are readable by every seat, other feeds by any signed-in member.
  unfoldable pub or_member : Bool → OfferingRole → Decision → Decision
  or_member member seat d =
      if d.allowed
      then d
      else if member
      then record deny { allowed = true; relation = seat }
      else deny

  offering_post : Actor → PolicyKey → Policy → Option ℕ → Result Error Decision
  unfolding seat_or_staff or_member is_read
  offering_post actor key policy none = ok deny
  offering_post actor key policy (some offering_id) =
      try (facts.relation_to actor.id offering_id) λ seat.
        try (seat_or_staff actor policy seat offering_id)
          λ d. ok (or_member (is_read key && not (eq_role seat OfferingRole.unset)) seat d)

  unfoldable pub unit_post : Actor → PolicyKey → Policy → PostFacts → Result Error Decision
  unfolding post_scope_unit or_member is_read
  unit_post actor key policy post = elim (post_scope_unit post.scope) [
    | none ↦ ok deny
    | some (entity, min_scope) ↦
        try
          (check_staff_arm facts.lineage_for actor entity (perms_reaching policy.staff min_scope)
            (post_target post.scope post.scope_id))
          (λ d. ok (or_member (is_read key) OfferingRole.unset d))
  ]

  unfoldable pub post_check : Actor → PolicyKey → PostFacts → Result Error Decision
  unfolding offering_post unit_post
  post_check actor key post =
      if post.author_id == actor.id
      then ok (record deny { allowed = true; matched = some by_owner })
      else (try (facts.policy_for key) (λ policy.
          if is_offering post.scope
          then offering_post actor key policy post.scope_id
          else unit_post actor key policy post))

  unfoldable pub check_post : Actor → PolicyKey → ℕ → Result Error Decision
  unfolding post_check
  check_post actor key post_id = try (facts.post_facts post_id) (λ post. post_check actor key post)
