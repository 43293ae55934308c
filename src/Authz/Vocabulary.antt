-- ===== src/Authz/Vocabulary.antt =====
-- internal/authz: the closed vocabularies (policy.go, staff.go, classroom.go). A Go string type is a
-- data type with a constructor for each constant, `unset` for "" where the code gives "" a meaning,
-- and `other` for any other string, told apart by a number.
use e_campus_server.Prelude.{ℕ, Bool, true, false, ◌==◌, ltb, leb, not}

-- Levels are never compared but by rank.
pub data Level : Type 0 where
  unset viewer operator admin super_admin : Level
  other : ℕ → Level

pub data Scope : Type 0 where
  unset program department college university platform : Scope
  other : ℕ → Scope

pub data Domain : Type 0 where
  unset administration : Domain
  other : ℕ → Domain

-- `unset` is `RelationNone`.
pub data OfferingRole : Type 0 where
  unset teacher assistant student observer : OfferingRole
  other : ℕ → OfferingRole

pub data Entity : Type 0 where
  course offering student exam assignment academic_year semester enrollment grade attendance user
        department college program university platform activity post qa settings application
        cohort_group subscription curriculum project content mute teacher :
      Entity
  other : ℕ → Entity

-- `record_results` is `ActionRecord`, whose own word is reserved.
pub data Action : Type 0 where
  get list create update delete submit attach schedule unschedule save discard grade publish close
        start record_results review answer reject register unregister form_groups initialize mark
        excuse activate start_grading finalize definalize generate_offerings bulk_enroll end approve
        request_leave pin :
      Action
  other : ℕ → Action

-- Ranks. A string that the map does not hold ranks 0.
unfoldable pub level_rank : Level → ℕ
level_rank viewer = 1
level_rank operator = 2
level_rank admin = 3
level_rank super_admin = 4
level_rank _ = 0

unfoldable pub scope_rank : Scope → ℕ
scope_rank program = 1
scope_rank department = 2
scope_rank college = 3
scope_rank university = 4
scope_rank platform = 5
scope_rank _ = 0

-- `Level.AtLeast`
unfoldable pub at_least : Level → Level → Bool
unfolding level_rank
at_least l min = leb (level_rank min) (level_rank l)

-- `Scope.WiderThan`
unfoldable pub wider_than : Scope → Scope → Bool
unfolding scope_rank
wider_than s o = ltb (scope_rank o) (scope_rank s)

unfoldable pub valid_level : Level → Bool
unfolding level_rank
valid_level l = not (level_rank l == 0)

unfoldable pub valid_scope : Scope → Bool
unfolding scope_rank
valid_scope s = not (scope_rank s == 0)

unfoldable pub valid_domain : Domain → Bool
valid_domain administration = true
valid_domain _ = false

unfoldable pub valid_offering_role : OfferingRole → Bool
valid_offering_role teacher = true
valid_offering_role assistant = true
valid_offering_role student = true
valid_offering_role observer = true
valid_offering_role _ = false

unfoldable pub valid_entity : Entity → Bool
valid_entity (other _) = false
valid_entity _ = true

unfoldable pub valid_action : Action → Bool
valid_action (other _) = false
valid_action _ = true

-- Equality of strings, as `==` on the named types.
abbrev pub eq_scope : Scope → Scope → Bool
eq_scope unset unset = true
eq_scope program program = true
eq_scope department department = true
eq_scope college college = true
eq_scope university university = true
eq_scope platform platform = true
eq_scope (other a) (other b) = a == b
eq_scope _ _ = false

abbrev pub eq_domain : Domain → Domain → Bool
eq_domain unset unset = true
eq_domain administration administration = true
eq_domain (other a) (other b) = a == b
eq_domain _ _ = false

abbrev pub eq_role : OfferingRole → OfferingRole → Bool
eq_role unset unset = true
eq_role teacher teacher = true
eq_role assistant assistant = true
eq_role student student = true
eq_role observer observer = true
eq_role (other a) (other b) = a == b
eq_role _ _ = false

-- `levelRank[a] < levelRank[b]`
unfoldable pub ltb_rank : Level → Level → Bool
unfolding level_rank
ltb_rank a b = ltb (level_rank a) (level_rank b)
