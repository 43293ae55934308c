-- ===== src/Authz/Defaults/Rows.antt =====
-- internal/authz/policy_defaults.go: the shorthands of the compiled-in policy table.
use e_campus_server.Prelude.{List, [], ◌∷◌}
use e_campus_server.Authz.Vocabulary.{
  Level, Scope, Domain, OfferingRole, Entity, Action, viewer, admin, teacher, assistant, observer,
}
use e_campus_server.Authz.Keys.{PolicyKey}
use e_campus_server.Authz.Policy.{StaffPermission, Policy}

-- An entry of the Go map.
pub record Row : Type 0 where
  pub key : PolicyKey
  pub policy : Policy

abbrev pub at : Level → Scope → StaffPermission
at level scope = record { min_level = level; scope = scope; domain = Domain.unset }

abbrev pub row : Entity → Action → List StaffPermission → List OfferingRole → Row
row resource action staff offering = record {
  key = record { resource = resource; action = action };
  policy = record { staff = staff; offering = offering };
}

abbrev pub all_seats : List OfferingRole
all_seats = teacher ∷ assistant ∷ OfferingRole.student ∷ observer ∷ []

abbrev pub teaching_seats : List OfferingRole
teaching_seats = teacher ∷ assistant ∷ []

abbrev pub student_seat : List OfferingRole
student_seat = OfferingRole.student ∷ []

abbrev pub post_staff : List StaffPermission
post_staff =
    at admin Scope.program
    ∷ at admin Scope.department
    ∷ at admin Scope.college
    ∷ at admin Scope.university
    ∷ at admin Scope.platform
    ∷ []

abbrev pub viewer_staff : List StaffPermission
viewer_staff =
    at viewer Scope.department ∷ at viewer Scope.university ∷ at admin Scope.platform ∷ []

abbrev pub admin_staff : List StaffPermission
admin_staff =
    at admin Scope.department
    ∷ at admin Scope.college
    ∷ at admin Scope.university
    ∷ at admin Scope.platform
    ∷ []
