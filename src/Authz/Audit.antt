-- ===== src/Authz/Audit.antt =====
-- An audit of the compiled-in policy table (policy_defaults.go) through the checks that read it.
use e_campus_server.Prelude.{
  ℕ, ◌≡◌, ◌<◌, refl, Bool, true, false, ◌&&◌, ◌||◌, Option, none, some, List, [], ◌∷◌, arith, inl,
  inr, leb, all, All, ok, Bool-cases, ◌==◌, All-of-all, All-imp, find-none, any-none,
}
use e_campus_server.Authz.Vocabulary.{Entity, level_rank}
use e_campus_server.Authz.Keys.{PolicyKey, eq_key, action_code}
use e_campus_server.Authz.Policy.{StaffPermission, Policy, RoleClaim, Actor, Lineage, deny}
use e_campus_server.Authz.Staff.{
  LineageReader, by_role_alone, in_same_unit, match_by_role_alone, match_same_unit, check_staff_arm,
  staff_by_unit, could_match_same_unit, meets_level_and_domain,
}
use e_campus_server.Authz.Engine.{Facts, is_read, check_staff}
use e_campus_server.Authz.Defaults.{
  Row, default_policies, empty_policy, lookup_policy, static_policy_for,
}

-- A property of the entry that a lookup finds, or of the empty policy.
lookup_policy-elim {κ} :
    (P : Policy → Type κ) (key : PolicyKey) (rows : List Row)
    → P empty_policy
    → All (λ r. eq_key r.key key ≡ true → P r.policy) rows
    → P (lookup_policy key rows)
unfolding lookup_policy
lookup_policy-elim P key [] e h = e
lookup_policy-elim P key (r ∷ rows) e h = elim (Bool-cases (eq_key r.key key)) [
  | inl hit ↦ rw hit (h.0 hit)
  | inr miss ↦ rw miss (lookup_policy-elim P key rows e h.1)
]

-- Outside `get` and `list` the least level asked for is admin.
abbrev wants_admin : StaffPermission → Bool
wants_admin p = leb 3 (level_rank p.min_level)

abbrev row_writes_want_admin : Row → Bool
row_writes_want_admin r = is_read r.key || all wants_admin r.policy.staff

table_writes_want_admin : all row_writes_want_admin default_policies ≡ true
unfolding default_policies is_read level_rank
table_writes_want_admin = refl

eq_key-action : (a b : PolicyKey) → eq_key a b ≡ true → action_code a.action ≡ action_code b.action
eq_key-action a b h = eq_of_and _ (action_code a.action) (action_code b.action) h
  where
    eq_of_and : (r : Bool) (m n : ℕ) → (r && m == n) ≡ true → m ≡ n
    eq_of_and r m n q = ground arith

is_read-eq : (a b : PolicyKey) → eq_key a b ≡ true → is_read a ≡ is_read b
unfolding is_read
is_read-eq a b h = rw (eq_key-action a b h)

writes_want_admin :
    (key : PolicyKey)
    → is_read key ≡ false
    → All (λ p. wants_admin p ≡ true) (lookup_policy key default_policies).staff
writes_want_admin key write = All-of-all wants_admin _ (
    lookup_policy-elim (λ p. all wants_admin p.staff ≡ true) key default_policies refl
      (All-imp _ _ (λ r h hit. from_row r h hit) default_policies
        (All-of-all row_writes_want_admin default_policies table_writes_want_admin)))
  where
    from_row :
        (r : Row)
        → row_writes_want_admin r ≡ true
        → eq_key r.key key ≡ true
        → all wants_admin r.policy.staff ≡ true
    from_row r h hit = let k = rw (is_read-eq r.key key hit, write) at h in k

module _ (role : RoleClaim) (low : level_rank role.level < 3) where
  below_level : (p : StaffPermission) → wants_admin p ≡ true → meets_level_and_domain role p ≡ false
  unfolding meets_level_and_domain
  below_level p h = ground (arith, low)

  below_alone : (p : StaffPermission) → wants_admin p ≡ true → by_role_alone role p ≡ false
  unfolding by_role_alone
  below_alone p h = ground (arith, low)

  below_unit :
      (l : Option Lineage) (p : StaffPermission)
      → wants_admin p ≡ true
      → in_same_unit role l p ≡ false
  unfolding in_same_unit
  below_unit l p h = ground (arith, low)

  module _ (perms : List StaffPermission) (h : All (λ p. wants_admin p ≡ true) perms) where
    no_unit : (l : Option Lineage) → match_same_unit role perms l ≡ none
    unfolding match_same_unit
    no_unit l = find-none _ perms (All-imp _ _ (below_unit l) perms h)

    no_alone : match_by_role_alone role perms ≡ none
    unfolding match_by_role_alone
    no_alone = find-none _ perms (All-imp _ _ below_alone perms h)

    below_by_unit :
        (lineage_for : LineageReader) (e : Entity) (target : Option ℕ)
        → could_match_same_unit role perms ≡ false
        → staff_by_unit lineage_for role e perms target ≡ ok deny
    unfolding staff_by_unit
    below_by_unit lineage_for e none out = rw (no_unit none)
    below_by_unit lineage_for e (some id) out = rw out

    could_not : could_match_same_unit role perms ≡ false
    unfolding could_match_same_unit
    could_not = any-none _ perms (All-imp _ _ (λ p q. ground (arith, below_level p q)) perms h)

    below_arm :
        (lineage_for : LineageReader) (actor : Actor) (e : Entity) (target : Option ℕ)
        → actor.role ≡ some role
        → check_staff_arm lineage_for actor e perms target ≡ ok deny
    unfolding check_staff_arm
    below_arm lineage_for actor e target staff =
        rw (staff, no_alone) (below_by_unit lineage_for e target could_not)

-- Under the compiled-in policies a staff role below admin is denied every action but `get` and
-- `list`, on every resource, on a row and on a collection, whatever the lineage port answers.
pub writes_need_admin :
    (facts : Facts) (actor : Actor) (role : RoleClaim) (key : PolicyKey) (target : Option ℕ)
    → facts.policy_for ≡ static_policy_for
    → actor.role ≡ some role
    → level_rank role.level < 3
    → is_read key ≡ false
    → check_staff facts actor key target ≡ ok deny
unfolding check_staff static_policy_for
writes_need_admin facts actor role key target store staff low write = rw store (
    below_arm role low (lookup_policy key default_policies).staff (writes_want_admin key write)
      facts.lineage_for actor key.resource target staff)
