-- ===== src/Authz/Defaults/Structure.antt =====
-- internal/authz/policy_defaults.go: the part of the table on colleges, departments and programs.
use e_campus_server.Prelude.{List, [], ◌∷◌}
use e_campus_server.Authz.Vocabulary.{Scope, Entity, Action, viewer, admin}
use e_campus_server.Authz.Defaults.Rows.{Row, at, row}

unfoldable pub structural_policies : List Row
structural_policies =
    row Entity.department Action.get
      (at viewer Scope.department ∷ at viewer Scope.university ∷ at admin Scope.platform ∷ []) []
    ∷ row Entity.department Action.update
        (at admin Scope.department ∷ at admin Scope.university ∷ at admin Scope.platform ∷ []) []
    ∷ row Entity.college Action.get
        (at viewer Scope.college ∷ at viewer Scope.university ∷ at admin Scope.platform ∷ []) []
    ∷ row Entity.college Action.update
        (at admin Scope.college ∷ at admin Scope.university ∷ at admin Scope.platform ∷ []) []
    ∷ row Entity.program Action.get
        (at viewer Scope.program
          ∷ at viewer Scope.department
          ∷ at viewer Scope.university
          ∷ at admin Scope.platform
          ∷ [])
        []
    ∷ row Entity.program Action.update
        (at admin Scope.program
          ∷ at admin Scope.department
          ∷ at admin Scope.university
          ∷ at admin Scope.platform
          ∷ [])
        []
    ∷ row Entity.college Action.list
        (at viewer Scope.college ∷ at viewer Scope.university ∷ at admin Scope.platform ∷ []) []
    ∷ row Entity.college Action.create (at admin Scope.university ∷ at admin Scope.platform ∷ []) []
    ∷ row Entity.department Action.list
        (at viewer Scope.department
          ∷ at viewer Scope.college
          ∷ at viewer Scope.university
          ∷ at admin Scope.platform
          ∷ [])
        []
    ∷ row Entity.department Action.create
        (at admin Scope.college ∷ at admin Scope.university ∷ at admin Scope.platform ∷ []) []
    ∷ row Entity.program Action.list
        (at viewer Scope.program
          ∷ at viewer Scope.department
          ∷ at viewer Scope.university
          ∷ at admin Scope.platform
          ∷ [])
        []
    ∷ row Entity.program Action.create
        (at admin Scope.department ∷ at admin Scope.university ∷ at admin Scope.platform ∷ []) []
    ∷ row Entity.university Action.get (at viewer Scope.university ∷ at admin Scope.platform ∷ [])
        []
    ∷ row Entity.university Action.update (at admin Scope.university ∷ at admin Scope.platform ∷ [])
        []
    ∷ row Entity.platform Action.get (at admin Scope.platform ∷ []) []
    ∷ row Entity.platform Action.update (at admin Scope.platform ∷ []) []
    ∷ []
