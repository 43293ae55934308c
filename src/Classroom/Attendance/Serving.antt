-- ===== src/Classroom/Attendance/Serving.antt =====
-- Any sequence of requests to the attendance service of internal/classroom/attendance.go, and of calls of
-- DeleteLesson of content.go.
use e_campus_server.Prelude.{
  ℕ, ◌≡◌, false, Option, some, List, [], ◌∷◌, ◌==◌, arith, any, ◌||◌, Bool, Result, row_at, Keeps,
}
use e_campus_server.Classroom.Errors.{Error}
use e_campus_server.Classroom.Attendance.Postgres.{
  Tables, ExcuseStatus, ExcuseRequest, AttendanceUpdate, is_pending, excuse_key, delete_lesson,
}
use e_campus_server.Classroom.Attendance.Service.{
  initialize, mark, update_mark, request_excuse, review,
}
use e_campus_server.Classroom.Attendance.Standing.{
  Stands, delete_lesson-Stands, initialize-Stands, mark-Stands, request_excuse-Stands,
  review-Stands, update_mark-Stands,
}

-- A request, with what `EnrolledUserIDs` answers and the id that is drawn for an excuse.
pub data Request : Type 0 where
  initializes : Result Error (List ℕ) → ℕ → ℕ → Request
  marks : ℕ → ℕ → ℕ → List AttendanceUpdate → Request
  updates : ℕ → ℕ → ℕ → ℕ → Request
  requests : ℕ → ℕ → ℕ → ℕ → ℕ → Request
  reviews : ℕ → ℕ → ℕ → ExcuseStatus → Option ℕ → Request
  deletes_lesson : ℕ → ℕ → Request

-- The tables after one request at a time, whatever it answered.
unfoldable pub serve : ℕ → Request → Tables → Tables
serve now (initializes enrolled offering lesson) t = (initialize enrolled offering lesson t).1
serve now (marks offering lesson marker changes) t = (mark now offering lesson marker changes t).1
serve now (updates offering id marker percentage) t =
    (update_mark now offering id marker percentage t).1
serve now (requests id offering lesson user reason) t =
    (request_excuse now id offering lesson user reason t).1
serve now (reviews offering id reviewer status note) t =
    (review now offering id reviewer status note t).1
serve now (deletes_lesson offering lesson) t = (delete_lesson offering lesson t).1

-- The deletion of a given lesson.
abbrev pub takes_lesson : ℕ → ℕ × Request → Bool
takes_lesson lesson (_, deletes_lesson _ id) = lesson == id
takes_lesson lesson _ = false

or-false : (a b : Bool) → (a || b) ≡ false → (a ≡ false) × (b ≡ false)
or-false a b h = ground arith

unfoldable pub serve_all : List (ℕ × Request) → Tables → Tables
serve_all [] t = t
serve_all ((now, r) ∷ rs) t = serve_all rs (serve now r t)

serve-Stands :
    (id : ℕ) (e : ExcuseRequest)
    → is_pending e.status ≡ false
    → (now : ℕ) (r : Request) (t : Tables) → takes_lesson e.lesson_id (now, r) ≡ false
    → Stands id e t
    → Stands id e (serve now r t)
unfolding serve Keeps
serve-Stands id e decided now (initializes enrolled offering lesson) t other =
    initialize-Stands id e enrolled offering lesson t
serve-Stands id e decided now (marks offering lesson marker changes) t other =
    mark-Stands id e now offering lesson marker changes t
serve-Stands id e decided now (updates offering row marker percentage) t other =
    update_mark-Stands id e now offering row marker percentage t
serve-Stands id e decided now (requests new offering lesson user reason) t other =
    request_excuse-Stands id e now new offering lesson user reason t
serve-Stands id e decided now (reviews offering row reviewer status note) t other =
    review-Stands id e decided now offering row reviewer status note t
serve-Stands id e decided now (deletes_lesson offering lesson) t other =
    delete_lesson-Stands offering lesson id e other t

-- Whatever requests to the attendance service and calls of DeleteLesson are served, one after the
-- other, if none of them deletes the lesson of an excuse that has been decided: the excuse keeps its
-- row, which is its status, its note, its reviewer and the time of the review.
pub serve_all-Stands :
    (rs : List (ℕ × Request)) (t : Tables) (id : ℕ) (e : ExcuseRequest)
    → any (takes_lesson e.lesson_id) rs ≡ false
    → row_at excuse_key id t.excuses ≡ some e
    → is_pending e.status ≡ false
    → row_at excuse_key id (serve_all rs t).excuses ≡ some e
unfolding serve_all Stands
serve_all-Stands [] t id e other there decided = there
serve_all-Stands ((now, r) ∷ rs) t id e other there decided =
    let (this, rest) = or-false (takes_lesson e.lesson_id (now, r)) _ other in
    serve_all-Stands rs (serve now r t) id e rest (serve-Stands id e decided now r t this there)
      decided
