-- ===== src/Authz/Keys.antt =====
-- internal/authz/policy.go: `PolicyKey`, and its equality, which a Go map uses. Each constant has a
-- number of its own; any other string has one past the constants.
use e_campus_server.Prelude.{ℕ, ◌+◌, Bool, ◌&&◌, ◌==◌}
use e_campus_server.Authz.Vocabulary.{Entity, Action}

pub record PolicyKey : Type 0 where
  pub resource : Entity
  pub action : Action

abbrev pub entity_code : Entity → ℕ
entity_code Entity.course = 0
entity_code Entity.offering = 1
entity_code Entity.student = 2
entity_code Entity.exam = 3
entity_code Entity.assignment = 4
entity_code Entity.academic_year = 5
entity_code Entity.semester = 6
entity_code Entity.enrollment = 7
entity_code Entity.grade = 8
entity_code Entity.attendance = 9
entity_code Entity.user = 10
entity_code Entity.department = 11
entity_code Entity.college = 12
entity_code Entity.program = 13
entity_code Entity.university = 14
entity_code Entity.platform = 15
entity_code Entity.activity = 16
entity_code Entity.post = 17
entity_code Entity.qa = 18
entity_code Entity.settings = 19
entity_code Entity.application = 20
entity_code Entity.cohort_group = 21
entity_code Entity.subscription = 22
entity_code Entity.curriculum = 23
entity_code Entity.project = 24
entity_code Entity.content = 25
entity_code Entity.mute = 26
entity_code Entity.teacher = 27
entity_code (Entity.other n) = 28 + n

abbrev pub action_code : Action → ℕ
action_code Action.get = 0
action_code Action.list = 1
action_code Action.create = 2
action_code Action.update = 3
action_code Action.delete = 4
action_code Action.submit = 5
action_code Action.attach = 6
action_code Action.schedule = 7
action_code Action.unschedule = 8
action_code Action.save = 9
action_code Action.discard = 10
action_code Action.grade = 11
action_code Action.publish = 12
action_code Action.close = 13
action_code Action.start = 14
action_code Action.record_results = 15
action_code Action.review = 16
action_code Action.answer = 17
action_code Action.reject = 18
action_code Action.register = 19
action_code Action.unregister = 20
action_code Action.form_groups = 21
action_code Action.initialize = 22
action_code Action.mark = 23
action_code Action.excuse = 24
action_code Action.activate = 25
action_code Action.start_grading = 26
action_code Action.finalize = 27
action_code Action.definalize = 28
action_code Action.generate_offerings = 29
action_code Action.bulk_enroll = 30
action_code Action.end = 31
action_code Action.approve = 32
action_code Action.request_leave = 33
action_code Action.pin = 34
action_code (Action.other n) = 35 + n

abbrev pub eq_entity : Entity → Entity → Bool
eq_entity a b = entity_code a == entity_code b

abbrev pub eq_action : Action → Action → Bool
eq_action a b = action_code a == action_code b

abbrev pub eq_key : PolicyKey → PolicyKey → Bool
eq_key a b = eq_entity a.resource b.resource && eq_action a.action b.action
