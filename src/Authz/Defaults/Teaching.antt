-- ===== src/Authz/Defaults/Teaching.antt =====
-- internal/authz/policy_defaults.go: the part of the table on offerings, their staff and enrollments.
use e_campus_server.Prelude.{List, [], ◌∷◌}
use e_campus_server.Authz.Vocabulary.{
  Scope, Entity, Action, OfferingRole, viewer, admin, teacher, assistant, observer,
}
use e_campus_server.Authz.Defaults.Rows.{Row, at, row}

unfoldable pub teaching_policies : List Row
teaching_policies =
    row Entity.offering Action.get
      (at viewer Scope.department ∷ at viewer Scope.university ∷ at admin Scope.platform ∷ [])
      (teacher ∷ assistant ∷ OfferingRole.student ∷ observer ∷ [])
    ∷ row Entity.offering Action.list
        (at admin Scope.department
          ∷ at admin Scope.college
          ∷ at admin Scope.university
          ∷ at admin Scope.platform
          ∷ [])
        (teacher ∷ assistant ∷ OfferingRole.student ∷ observer ∷ [])
    ∷ row Entity.offering Action.update
        (at admin Scope.department
          ∷ at admin Scope.college
          ∷ at admin Scope.university
          ∷ at admin Scope.platform
          ∷ [])
        (teacher ∷ assistant ∷ [])
    ∷ row Entity.offering Action.delete
        (at admin Scope.department ∷ at admin Scope.university ∷ at admin Scope.platform ∷ []) []
    ∷ row Entity.teacher Action.list
        (at viewer Scope.department ∷ at viewer Scope.university ∷ at admin Scope.platform ∷ []) []
    ∷ row Entity.teacher Action.create
        (at admin Scope.department ∷ at admin Scope.university ∷ at admin Scope.platform ∷ []) []
    ∷ row Entity.teacher Action.update
        (at admin Scope.department ∷ at admin Scope.university ∷ at admin Scope.platform ∷ []) []
    ∷ row Entity.teacher Action.delete
        (at admin Scope.department ∷ at admin Scope.university ∷ at admin Scope.platform ∷ []) []
    ∷ row Entity.enrollment Action.create
        (at admin Scope.department ∷ at admin Scope.university ∷ at admin Scope.platform ∷ [])
        (teacher ∷ assistant ∷ [])
    ∷ row Entity.enrollment Action.update
        (at admin Scope.department
          ∷ at admin Scope.college
          ∷ at admin Scope.university
          ∷ at admin Scope.platform
          ∷ [])
        (teacher ∷ assistant ∷ [])
    ∷ row Entity.enrollment Action.delete
        (at admin Scope.department ∷ at admin Scope.university ∷ at admin Scope.platform ∷ [])
        (teacher ∷ assistant ∷ [])
    ∷ row Entity.enrollment Action.list (at admin Scope.university ∷ at admin Scope.platform ∷ [])
        []
    ∷ row Entity.enrollment Action.get (at admin Scope.university ∷ at admin Scope.platform ∷ []) []
    ∷ row Entity.enrollment Action.approve
        (at admin Scope.university ∷ at admin Scope.platform ∷ []) []
    ∷ row Entity.enrollment Action.reject (at admin Scope.university ∷ at admin Scope.platform ∷ [])
        []
    ∷ []
