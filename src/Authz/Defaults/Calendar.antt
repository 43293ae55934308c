-- ===== src/Authz/Defaults/Calendar.antt =====
-- internal/authz/policy_defaults.go: the part of the table on academic years, semesters and the course catalogue.
use e_campus_server.Prelude.{List, [], ◌∷◌}
use e_campus_server.Authz.Vocabulary.{Scope, Entity, Action, viewer, admin}
use e_campus_server.Authz.Defaults.Rows.{Row, at, row}

unfoldable pub calendar_policies : List Row
calendar_policies =
    row Entity.academic_year Action.get (at viewer Scope.university ∷ at admin Scope.platform ∷ [])
      []
    ∷ row Entity.academic_year Action.list
        (at viewer Scope.university ∷ at admin Scope.platform ∷ []) []
    ∷ row Entity.academic_year Action.create
        (at admin Scope.university ∷ at admin Scope.platform ∷ []) []
    ∷ row Entity.academic_year Action.update
        (at admin Scope.university ∷ at admin Scope.platform ∷ []) []
    ∷ row Entity.academic_year Action.delete
        (at admin Scope.university ∷ at admin Scope.platform ∷ []) []
    ∷ row Entity.semester Action.get (at viewer Scope.university ∷ at admin Scope.platform ∷ []) []
    ∷ row Entity.semester Action.list (at viewer Scope.university ∷ at admin Scope.platform ∷ []) []
    ∷ row Entity.semester Action.create (at admin Scope.university ∷ at admin Scope.platform ∷ [])
        []
    ∷ row Entity.semester Action.update (at admin Scope.university ∷ at admin Scope.platform ∷ [])
        []
    ∷ row Entity.semester Action.delete (at admin Scope.university ∷ at admin Scope.platform ∷ [])
        []
    ∷ row Entity.semester Action.activate (at admin Scope.university ∷ at admin Scope.platform ∷ [])
        []
    ∷ row Entity.semester Action.start_grading
        (at admin Scope.university ∷ at admin Scope.platform ∷ []) []
    ∷ row Entity.semester Action.finalize (at admin Scope.university ∷ at admin Scope.platform ∷ [])
        []
    ∷ row Entity.semester Action.definalize
        (at admin Scope.university ∷ at admin Scope.platform ∷ []) []
    ∷ row Entity.semester Action.generate_offerings
        (at admin Scope.university ∷ at admin Scope.platform ∷ []) []
    ∷ row Entity.semester Action.bulk_enroll
        (at admin Scope.university ∷ at admin Scope.platform ∷ []) []
    ∷ row Entity.semester Action.end (at admin Scope.university ∷ at admin Scope.platform ∷ []) []
    ∷ row Entity.course Action.get
        (at viewer Scope.program
          ∷ at viewer Scope.department
          ∷ at viewer Scope.university
          ∷ at admin Scope.platform
          ∷ [])
        []
    ∷ row Entity.course Action.list
        (at viewer Scope.program
          ∷ at viewer Scope.department
          ∷ at viewer Scope.university
          ∷ at admin Scope.platform
          ∷ [])
        []
    ∷ row Entity.course Action.update
        (at admin Scope.department ∷ at admin Scope.university ∷ at admin Scope.platform ∷ []) []
    ∷ row Entity.course Action.create
        (at admin Scope.department ∷ at admin Scope.university ∷ at admin Scope.platform ∷ []) []
    ∷ row Entity.course Action.delete
        (at admin Scope.department ∷ at admin Scope.university ∷ at admin Scope.platform ∷ []) []
    ∷ row Entity.offering Action.create
        (at admin Scope.department ∷ at admin Scope.university ∷ at admin Scope.platform ∷ []) []
    ∷ []
