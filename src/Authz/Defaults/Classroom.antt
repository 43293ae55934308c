-- ===== src/Authz/Defaults/Classroom.antt =====
-- internal/authz/policy_defaults.go: the part of the table on posts, activities and the classroom.
use e_campus_server.Prelude.{List, [], ◌∷◌}
use e_campus_server.Authz.Vocabulary.{
  Scope, Entity, Action, OfferingRole, admin, teacher, assistant,
}
use e_campus_server.Authz.Defaults.Rows.{
  Row, at, row, all_seats, teaching_seats, student_seat, post_staff, viewer_staff, admin_staff,
}

unfoldable pub classroom_policies : List Row
classroom_policies =
    row Entity.post Action.create
      (at admin Scope.program
        ∷ at admin Scope.department
        ∷ at admin Scope.college
        ∷ at admin Scope.university
        ∷ [])
      (teacher ∷ assistant ∷ [])
    ∷ row Entity.activity Action.create
        (at admin Scope.department ∷ at admin Scope.college ∷ at admin Scope.university ∷ []) []
    ∷ row Entity.post Action.get post_staff teaching_seats
    ∷ row Entity.post Action.list post_staff teaching_seats
    ∷ row Entity.post Action.update post_staff teaching_seats
    ∷ row Entity.post Action.delete post_staff teaching_seats
    ∷ row Entity.post Action.pin post_staff teaching_seats
    ∷ row Entity.post Action.attach post_staff teaching_seats
    ∷ row Entity.content Action.get viewer_staff all_seats
    ∷ row Entity.content Action.list viewer_staff all_seats
    ∷ row Entity.content Action.create admin_staff teaching_seats
    ∷ row Entity.content Action.update admin_staff teaching_seats
    ∷ row Entity.content Action.delete admin_staff teaching_seats
    ∷ row Entity.content Action.attach [] teaching_seats
    ∷ row Entity.content Action.schedule [] teaching_seats
    ∷ row Entity.content Action.unschedule [] teaching_seats
    ∷ row Entity.assignment Action.get viewer_staff all_seats
    ∷ row Entity.assignment Action.list viewer_staff all_seats
    ∷ row Entity.assignment Action.create admin_staff teaching_seats
    ∷ row Entity.assignment Action.update admin_staff teaching_seats
    ∷ row Entity.assignment Action.delete admin_staff (teacher ∷ [])
    ∷ row Entity.assignment Action.attach [] teaching_seats
    ∷ row Entity.assignment Action.save [] student_seat
    ∷ row Entity.assignment Action.submit [] student_seat
    ∷ row Entity.assignment Action.discard [] student_seat
    ∷ row Entity.assignment Action.grade [] teaching_seats
    ∷ row Entity.exam Action.get viewer_staff all_seats
    ∷ row Entity.exam Action.list viewer_staff all_seats
    ∷ row Entity.exam Action.create admin_staff teaching_seats
    ∷ row Entity.exam Action.update [] teaching_seats
    ∷ row Entity.exam Action.delete [] (teacher ∷ [])
    ∷ row Entity.exam Action.publish [] teaching_seats
    ∷ row Entity.exam Action.close [] (teacher ∷ [])
    ∷ row Entity.exam Action.start [] student_seat
    ∷ row Entity.exam Action.save [] student_seat
    ∷ row Entity.exam Action.submit [] student_seat
    ∷ row Entity.exam Action.grade [] teaching_seats
    ∷ row Entity.exam Action.review [] teaching_seats
    ∷ row Entity.exam Action.record_results [] teaching_seats
    ∷ row Entity.attendance Action.get viewer_staff all_seats
    ∷ row Entity.attendance Action.list viewer_staff
        (teacher ∷ assistant ∷ OfferingRole.student ∷ [])
    ∷ row Entity.attendance Action.update [] teaching_seats
    ∷ row Entity.attendance Action.initialize [] teaching_seats
    ∷ row Entity.attendance Action.mark [] teaching_seats
    ∷ row Entity.attendance Action.excuse [] student_seat
    ∷ row Entity.attendance Action.review [] teaching_seats
    ∷ row Entity.grade Action.get [] all_seats
    ∷ row Entity.grade Action.list viewer_staff (teacher ∷ assistant ∷ OfferingRole.student ∷ [])
    ∷ row Entity.grade Action.create [] teaching_seats
    ∷ row Entity.grade Action.update [] teaching_seats
    ∷ row Entity.qa Action.create [] all_seats
    ∷ row Entity.qa Action.get viewer_staff all_seats
    ∷ row Entity.qa Action.list viewer_staff all_seats
    ∷ row Entity.qa Action.update admin_staff (teacher ∷ assistant ∷ OfferingRole.student ∷ [])
    ∷ row Entity.qa Action.delete [] (teacher ∷ assistant ∷ OfferingRole.student ∷ [])
    ∷ row Entity.qa Action.answer [] teaching_seats
    ∷ row Entity.qa Action.reject [] teaching_seats
    ∷ row Entity.project Action.get viewer_staff all_seats
    ∷ row Entity.project Action.list viewer_staff all_seats
    ∷ row Entity.project Action.create [] (teacher ∷ [])
    ∷ row Entity.project Action.update [] teaching_seats
    ∷ row Entity.project Action.delete [] (teacher ∷ [])
    ∷ row Entity.project Action.attach [] teaching_seats
    ∷ row Entity.project Action.register [] student_seat
    ∷ row Entity.project Action.unregister [] student_seat
    ∷ row Entity.project Action.form_groups [] teaching_seats
    ∷ row Entity.project Action.save [] student_seat
    ∷ row Entity.project Action.submit [] student_seat
    ∷ row Entity.project Action.grade [] teaching_seats
    ∷ []
