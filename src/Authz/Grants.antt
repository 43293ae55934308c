-- ===== src/Authz/Grants.antt =====
-- Handing out and managing roles (`CanGrantRole`, `CanManageRole` of staff.go).
use e_campus_server.Prelude.{
  List, [], ◌∷◌, All, length, ◌-◌, ◌≡◌, ◌<◌, ◌≤◌, Bool, true, false, some, arith, ◌⊎◌, inl, inr,
  Bool-cases, sym, ◌&&◌,
}
use e_campus_server.Authz.Vocabulary.{
  Level, Scope, eq_scope, level_rank, scope_rank, wider_than, ltb_rank,
}
use e_campus_server.Authz.Policy.{RoleClaim}
use e_campus_server.Authz.Staff.{LineageReader, can_grant_role, can_manage_claim, can_manage_role}

-- Who may grant a role has a strictly wider scope than it, and at least its level.
pub can_grant_role-lt :
    (al : Level) (as_ : Scope) (tl : Level) (ts : Scope)
    → can_grant_role al as_ tl ts ≡ true
    → (scope_rank ts < scope_rank as_) × (level_rank tl ≤ level_rank al)
unfolding can_grant_role
can_grant_role-lt al as_ tl ts h = ground arith

can_grant_role-scope :
    (al : Level) (as_ : Scope) (tl : Level) (ts : Scope)
    → can_grant_role al as_ tl ts ≡ true
    → 1 ≤ scope_rank ts
unfolding can_grant_role
can_grant_role-scope al as_ tl ts h = ground arith

-- Roles handed on, of which each may grant the next.
unfoldable pub hands_on : Level → Scope → List (Level × Scope) → Bool
hands_on level scope [] = true
hands_on level scope ((l, s) ∷ chain) = can_grant_role level scope l s && hands_on l s chain

-- A role with a strictly narrower scope, and a level that is not above.
unfoldable pub Inside : Level → Scope → Level × Scope → Type 0
Inside level scope r = (scope_rank r.1 < scope_rank scope) × (level_rank r.0 ≤ level_rank level)

Inside-All :
    (level l : Level) (scope s : Scope) (chain : List (Level × Scope))
    → Inside level scope (l, s)
    → All (Inside l s) chain
    → All (Inside level scope) chain
unfolding Inside
Inside-All level l scope s [] inside h = tt
Inside-All level l scope s (r ∷ chain) inside ((narrow, low), h) = (
  (omega (arith, narrow, inside), omega (arith, low, inside)),
  Inside-All level l scope s chain inside h,
)

hands_on-Inside :
    (level : Level) (scope : Scope) (chain : List (Level × Scope))
    → hands_on level scope chain ≡ true
    → All (Inside level scope) chain × (length chain ≤ scope_rank scope - 1)
unfolding hands_on Inside
hands_on-Inside level scope [] h = (tt, omega arith)
hands_on-Inside level scope ((l, s) ∷ chain) h =
    let granted : can_grant_role level scope l s ≡ true = ground (arith, h) in
    let inside : Inside level scope (l, s) = can_grant_role-lt level scope l s granted in
    let named : 1 ≤ scope_rank s = can_grant_role-scope level scope l s granted in
    let (rest, short) = hands_on-Inside l s chain (ground (arith, h)) in
    ((inside, Inside-All level l scope s chain inside rest), omega (arith, short, named, inside.0))

scope_rank-bound : (s : Scope) → scope_rank s ≤ 5
unfolding scope_rank
scope_rank-bound s = ground arith

-- However roles are handed on from one holder to the next: every role in the chain has a strictly
-- narrower scope than the first holder and a level not above, and the chain has at most four roles.
pub hands_on-ends :
    (level : Level) (scope : Scope) (chain : List (Level × Scope))
    → hands_on level scope chain ≡ true
    → All (Inside level scope) chain × (length chain ≤ 4)
hands_on-ends level scope chain h =
    let (inside, short) = hands_on-Inside level scope chain h in
    (inside, omega (arith, short, scope_rank-bound scope))

and-right : (a b : Bool) → (a && b) ≡ true → b ≡ true
and-right a b h = ground arith

scope_rank-eq : (a b : Scope) → eq_scope a b ≡ true → scope_rank a ≡ scope_rank b
unfolding scope_rank
scope_rank-eq a b h = ground arith

-- What a positive answer of `CanManageRole` says of the two ranks.
pub Outranks : RoleClaim → RoleClaim → Type 0
Outranks a b =
    (scope_rank b.scope < scope_rank a.scope)
    ⊎ (scope_rank b.scope ≡ scope_rank a.scope) × (level_rank b.level < level_rank a.level)

wider_than-lt : (a b : Scope) → wider_than a b ≡ true → scope_rank b < scope_rank a
unfolding wider_than
wider_than-lt a b h = ground arith

ltb_rank-lt : (a b : Level) → ltb_rank a b ≡ true → level_rank a < level_rank b
unfolding ltb_rank
ltb_rank-lt a b h = ground arith

can_manage_claim-Outranks :
    (lineage_for : LineageReader) (a b : RoleClaim)
    → can_manage_claim lineage_for a b ≡ true
    → Outranks a b
unfolding can_manage_claim Outranks
can_manage_claim-Outranks lineage_for a b h = elim (Bool-cases (wider_than a.scope b.scope)) [
  | inl wider ↦ inl (wider_than-lt a.scope b.scope wider)
  | inr narrow ↦ elim (Bool-cases (eq_scope a.scope b.scope)) [
    | inl same ↦
        let k = rw (narrow, same) at h in
        inr
          (sym (scope_rank-eq a.scope b.scope same), ltb_rank-lt b.level a.level (and-right _ _ k))
    | inr apart ↦ let k = rw (narrow, apart) at h in cc
  ]
]

Outranks-asymm : (a b : RoleClaim) → Outranks a b → ¬ Outranks b a
unfolding Outranks
Outranks-asymm a b h k = omega arith

-- When one role may manage another, the other may not manage it, whatever the lineage port answers.
pub can_manage_role_asymm :
    (lineage_for : LineageReader) (a b : RoleClaim)
    → can_manage_role lineage_for (some a) (some b) ≡ true
    → can_manage_role lineage_for (some b) (some a) ≡ false
unfolding can_manage_role
can_manage_role_asymm lineage_for a b h = elim (Bool-cases (can_manage_claim lineage_for b a)) [
  | inl k ↦ absurd (
      Outranks-asymm a b (can_manage_claim-Outranks lineage_for a b h)
        (can_manage_claim-Outranks lineage_for b a k))
  | inr k ↦ k
]
