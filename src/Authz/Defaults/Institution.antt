-- ===== src/Authz/Defaults/Institution.antt =====
-- internal/authz/policy_defaults.go: the part of the table on moderation, curricula, settings and the subscription.
use e_campus_server.Prelude.{List, [], ◌∷◌}
use e_campus_server.Authz.Vocabulary.{Scope, Entity, Action, viewer, admin}
use e_campus_server.Authz.Defaults.Rows.{Row, at, row, teaching_seats, viewer_staff, admin_staff}

unfoldable pub institution_policies : List Row
institution_policies =
    row Entity.mute Action.list viewer_staff teaching_seats
    ∷ row Entity.mute Action.create admin_staff teaching_seats
    ∷ row Entity.mute Action.delete admin_staff teaching_seats
    ∷ row Entity.curriculum Action.list
        (at viewer Scope.program
          ∷ at viewer Scope.department
          ∷ at viewer Scope.university
          ∷ at admin Scope.platform
          ∷ [])
        []
    ∷ row Entity.curriculum Action.create
        (at admin Scope.program
          ∷ at admin Scope.department
          ∷ at admin Scope.college
          ∷ at admin Scope.university
          ∷ at admin Scope.platform
          ∷ [])
        []
    ∷ row Entity.curriculum Action.update
        (at admin Scope.program
          ∷ at admin Scope.department
          ∷ at admin Scope.college
          ∷ at admin Scope.university
          ∷ at admin Scope.platform
          ∷ [])
        []
    ∷ row Entity.curriculum Action.delete
        (at admin Scope.program
          ∷ at admin Scope.department
          ∷ at admin Scope.college
          ∷ at admin Scope.university
          ∷ at admin Scope.platform
          ∷ [])
        []
    ∷ row Entity.settings Action.get (at viewer Scope.university ∷ at admin Scope.platform ∷ []) []
    ∷ row Entity.settings Action.update (at admin Scope.university ∷ at admin Scope.platform ∷ [])
        []
    ∷ row Entity.subscription Action.get (at admin Scope.university ∷ at admin Scope.platform ∷ [])
        []
    ∷ row Entity.subscription Action.update (at admin Scope.platform ∷ []) []
    ∷ []
