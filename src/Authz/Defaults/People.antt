-- ===== src/Authz/Defaults/People.antt =====
-- internal/authz/policy_defaults.go: the part of the table on users, students, cohort groups and admissions.
use e_campus_server.Prelude.{List, [], ◌∷◌}
use e_campus_server.Authz.Vocabulary.{Scope, Entity, Action, viewer, admin}
use e_campus_server.Authz.Defaults.Rows.{Row, at, row}

unfoldable pub people_policies : List Row
people_policies =
    row Entity.user Action.get (at admin Scope.university ∷ at admin Scope.platform ∷ []) []
    ∷ row Entity.user Action.list (at admin Scope.university ∷ at admin Scope.platform ∷ []) []
    ∷ row Entity.user Action.create (at admin Scope.university ∷ at admin Scope.platform ∷ []) []
    ∷ row Entity.user Action.update (at admin Scope.university ∷ at admin Scope.platform ∷ []) []
    ∷ row Entity.user Action.delete (at admin Scope.university ∷ at admin Scope.platform ∷ []) []
    ∷ row Entity.student Action.get
        (at viewer Scope.program
          ∷ at viewer Scope.department
          ∷ at viewer Scope.college
          ∷ at viewer Scope.university
          ∷ at admin Scope.platform
          ∷ [])
        []
    ∷ row Entity.student Action.list
        (at viewer Scope.department
          ∷ at viewer Scope.college
          ∷ at viewer Scope.university
          ∷ at admin Scope.platform
          ∷ [])
        []
    ∷ row Entity.student Action.create
        (at admin Scope.program
          ∷ at admin Scope.department
          ∷ at admin Scope.university
          ∷ at admin Scope.platform
          ∷ [])
        []
    ∷ row Entity.student Action.update
        (at admin Scope.program
          ∷ at admin Scope.department
          ∷ at admin Scope.university
          ∷ at admin Scope.platform
          ∷ [])
        []
    ∷ row Entity.student Action.delete (at admin Scope.university ∷ at admin Scope.platform ∷ []) []
    ∷ row Entity.student Action.request_leave
        (at admin Scope.program
          ∷ at admin Scope.department
          ∷ at admin Scope.university
          ∷ at admin Scope.platform
          ∷ [])
        []
    ∷ row Entity.student Action.approve (at admin Scope.university ∷ at admin Scope.platform ∷ [])
        []
    ∷ row Entity.student Action.end (at admin Scope.university ∷ at admin Scope.platform ∷ []) []
    ∷ row Entity.cohort_group Action.list
        (at viewer Scope.university ∷ at admin Scope.platform ∷ []) []
    ∷ row Entity.cohort_group Action.get (at viewer Scope.university ∷ at admin Scope.platform ∷ [])
        []
    ∷ row Entity.cohort_group Action.create
        (at admin Scope.university ∷ at admin Scope.platform ∷ []) []
    ∷ row Entity.cohort_group Action.update
        (at admin Scope.university ∷ at admin Scope.platform ∷ []) []
    ∷ row Entity.cohort_group Action.delete
        (at admin Scope.university ∷ at admin Scope.platform ∷ []) []
    ∷ row Entity.application Action.list
        (at admin Scope.program
          ∷ at admin Scope.department
          ∷ at admin Scope.college
          ∷ at admin Scope.university
          ∷ at admin Scope.platform
          ∷ [])
        []
    ∷ row Entity.application Action.get
        (at admin Scope.program
          ∷ at admin Scope.department
          ∷ at admin Scope.college
          ∷ at admin Scope.university
          ∷ at admin Scope.platform
          ∷ [])
        []
    ∷ row Entity.application Action.update
        (at admin Scope.program
          ∷ at admin Scope.department
          ∷ at admin Scope.college
          ∷ at admin Scope.university
          ∷ at admin Scope.platform
          ∷ [])
        []
    ∷ row Entity.application Action.review
        (at admin Scope.program
          ∷ at admin Scope.department
          ∷ at admin Scope.college
          ∷ at admin Scope.university
          ∷ at admin Scope.platform
          ∷ [])
        []
    ∷ []
