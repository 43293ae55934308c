-- ===== src/Management/Leave/Data.antt =====
-- internal/management/leave.go, with what it uses of student.go and enrollment.go: leaves, the students
-- whose status they change, and the enrollments that they withdraw.
use e_campus_server.Prelude.{ℕ, Bool, true, false, Option, List, value_or}

pub data LeaveType : Type 0 where
  short semester year : LeaveType
  other : ℕ → LeaveType

unfoldable pub valid_leave_type : LeaveType → Bool
valid_leave_type (LeaveType.other _) = false
valid_leave_type _ = true

-- `LeaveWithdrawsEnrollments`
unfoldable pub leave_withdraws : LeaveType → Bool
leave_withdraws short = false
leave_withdraws _ = true

pub data StudentStatus : Type 0 where
  active graduated withdrawn suspended on_leave : StudentStatus
  other : ℕ → StudentStatus

abbrev pub is_active : StudentStatus → Bool
is_active active = true
is_active _ = false

abbrev pub is_on_leave : StudentStatus → Bool
is_on_leave on_leave = true
is_on_leave _ = false

pub data EnrollmentStatus : Type 0 where
  enrolled dropped completed failed withdrawn_leave : EnrollmentStatus

abbrev pub is_enrolled : EnrollmentStatus → Bool
is_enrolled enrolled = true
is_enrolled _ = false

pub record Leave : Type 0 where
  pub id : ℕ
  pub student_id : ℕ
  pub type : LeaveType
  pub academic_year_id : Option ℕ
  pub reason : ℕ
  pub start_date : Option ℕ
  pub end_date : Option ℕ
  pub closed_at : Option ℕ
  pub approved_by : Option ℕ
  pub approved_at : Option ℕ
  pub notes : Option ℕ
  pub created_at : ℕ

unfoldable pub valid_student_status : StudentStatus → Bool
valid_student_status (StudentStatus.other _) = false
valid_student_status _ = true

pub data Shift : Type 0 where
  day evening : Shift
  other : ℕ → Shift

unfoldable pub valid_shift : Shift → Bool
valid_shift (Shift.other _) = false
valid_shift _ = true

pub data Tuition : Type 0 where
  tuition_free tuition_paid : Tuition
  other : ℕ → Tuition

unfoldable pub valid_tuition : Tuition → Bool
valid_tuition (Tuition.other _) = false
valid_tuition _ = true

pub record Student : Type 0 where
  pub user_id : ℕ
  pub program_id : ℕ
  pub admission_year : ℕ
  pub current_cohort_year : ℕ
  pub current_year : ℕ
  pub shift : Shift
  pub tuition : Tuition
  pub status : StudentStatus
  pub enrolled_at : ℕ
  pub created_at : ℕ
  pub version : ℕ

-- An enrollment with the semester of its offering.
pub record Enrollment : Type 0 where
  pub student_id : ℕ
  pub semester_id : ℕ
  pub status : EnrollmentStatus

pub record LeaveRequest : Type 0 where
  pub type : LeaveType
  pub reason : ℕ
  pub academic_year_id : Option ℕ
  pub semester_ids : List ℕ
  pub start_date : Option ℕ
  pub end_date : Option ℕ
  pub notes : Option ℕ

-- A partial edit of a student's record.
pub record StudentUpdate : Type 0 where
  pub current_year : Option ℕ
  pub current_cohort_year : Option ℕ
  pub shift : Option Shift
  pub tuition : Option Tuition
  pub status : Option StudentStatus

abbrev pub patched : StudentUpdate → Student → Student
patched upd s = record s {
  current_year = value_or upd.current_year s.current_year;
  current_cohort_year = value_or upd.current_cohort_year s.current_cohort_year;
  shift = value_or upd.shift s.shift;
  tuition = value_or upd.tuition s.tuition;
  status = value_or upd.status s.status;
}
