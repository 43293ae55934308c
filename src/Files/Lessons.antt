-- ===== src/Files/Lessons.antt =====
-- internal/classroom/content.go, postgres/content.go and files_reader.go: the attachments of lessons,
-- which refer to inodes, over the files' service as cmd/api/wire_classroom.go hands it out.
use e_campus_server.Prelude.{
  ℕ, Bool, not, ◌&&◌, ◌||◌, Option, none, some, List, [], ◌∷◌, ◌++◌, ◌==◌, is_set, value_or,
  if◌then◌else◌, map, any, find, keep, Result, ok, err, Method, Done, pure, throw, attempt, ◌>>=◌,
  ◌>>◌, row_at,
}
use e_campus_server.Files.Data.{Error, upload_not_found, failure, Content, Lesson, LessonAttachment}
use e_campus_server.Files.Postgres.{Tables, inode_key, link, unlink}
use e_campus_server.Files.Service.{resolve_upload}

-- The sentinels of internal/classroom/errors.go, and any error of the files.
pub data LessonError : Type 0 where
  lesson_not_found attachment_not_found duplicate_name receipt_not_found : LessonError
  of_files : Error → LessonError

abbrev pub lesson_key : Lesson → ℕ
lesson_key l = l.id

abbrev of_offering : ℕ → Option Lesson → Result LessonError Lesson
of_offering offering none = err lesson_not_found
of_offering offering (some l) = if l.offering_id == offering then ok l else err lesson_not_found

unfoldable pub find_lesson : ℕ → ℕ → Tables → Result LessonError Lesson
find_lesson offering id t = of_offering offering (row_at lesson_key id t.lessons)

unfoldable pub get_lesson : ℕ → ℕ → Method Tables LessonError Lesson
get_lesson offering id t = (find_lesson offering id t, t)

-- What the adapter answers: only a missing receipt is translated.
abbrev pub translate : Error → LessonError
translate upload_not_found = receipt_not_found
translate e = of_files e

abbrev pub adapted : {A : Type 0} → (Error → LessonError) → Result Error A → Result LessonError A
adapted f (ok a) = ok a
adapted f (err e) = err (f e)

abbrev pub through :
    {A : Type 0} → (Error → LessonError) → Method Tables Error A → Method Tables LessonError A
through f m t = let (r, t') = m t in (adapted f r, t')

-- `unlinkLogged`
unfoldable pub unlink_logged : ℕ → Method Tables LessonError Done
unlink_logged inode_id t = (ok tt, (unlink inode_id t).1)

unfoldable pub unlink_each : List ℕ → Method Tables LessonError Done
unfolding unlink_logged
unlink_each [] = pure tt
unlink_each (i ∷ ids) = do unlink_logged i; unlink_each ids

-- What follows the attempt to link one file: the rest, or the undoing.
abbrev pub link_next :
    List ℕ
    → Method Tables LessonError Done
    → Result LessonError Done
    → Method Tables LessonError Done
link_next done rest (ok _) = rest
link_next done rest (err e) = do unlink_each done; throw e

-- The loop of `linkAll`, with the files that it has linked, the oldest first.
unfoldable pub link_rest : List ℕ → List ℕ → Method Tables LessonError Done
link_rest done [] = pure tt
link_rest done (i ∷ ids) = do
  r ← attempt (through of_files (link i))
  link_next done (link_rest (done ++ (i ∷ [])) ids) r

-- `linkAll`, on the inodes of the files.
unfoldable pub link_all : List ℕ → Method Tables LessonError Done
unfolding link_rest
link_all ids = link_rest [] ids

abbrev pub clashes : LessonAttachment → LessonAttachment → Bool
clashes a b = b.id == a.id || (b.lesson_id == a.lesson_id && b.display_name == a.display_name)

-- The row that refers to a lesson and to an inode, of which the lesson has no other by that name.
unfoldable pub create_attachment : LessonAttachment → Method Tables LessonError Done
create_attachment a t =
    if any (clashes a) t.attachments
    then (err duplicate_name, t)
    else if not (is_set (row_at lesson_key a.lesson_id t.lessons))
    then (err (of_files (failure 23503)), t)
    else if not (is_set (row_at inode_key a.inode_id t.inodes))
    then (err (of_files (failure 23503)), t)
    else (ok tt, record t { attachments = a ∷ t.attachments })

abbrev pub is_attachment : ℕ → ℕ → LessonAttachment → Bool
is_attachment lesson id a = a.id == id && a.lesson_id == lesson

-- The id is the primary key, so one row goes at most.
abbrev pub without : (LessonAttachment → Bool) → List LessonAttachment → List LessonAttachment
without p [] = []
without p (a ∷ rows) = if p a then rows else a ∷ without p rows

abbrev pub deleted_or_missing :
    ℕ → ℕ → Tables → Option LessonAttachment → Result LessonError ℕ × Tables
deleted_or_missing lesson id t none = (err attachment_not_found, t)
deleted_or_missing lesson id t (some a) =
    (ok a.inode_id, record t { attachments = without (is_attachment lesson id) t.attachments })

unfoldable pub delete_attachment : ℕ → ℕ → Method Tables LessonError ℕ
delete_attachment lesson id t =
    deleted_or_missing lesson id t (find (is_attachment lesson id) t.attachments)

abbrev pub in_lesson : ℕ → LessonAttachment → Bool
in_lesson lesson a = a.lesson_id == lesson

-- A lesson's row takes its attachments along.
abbrev pub drop_lesson : ℕ → Tables → Tables
drop_lesson id t = record t {
  lessons = keep (λ l. not (l.id == id)) t.lessons;
  attachments = keep (λ a. not (in_lesson id a)) t.attachments;
}

abbrev pub dropped : ℕ → Tables → Result LessonError Lesson → Result LessonError (List ℕ) × Tables
dropped id t (err e) = (err e, t)
dropped id t (ok _) =
    (ok (map (λ a. a.inode_id) (keep (in_lesson id) t.attachments)), drop_lesson id t)

unfoldable pub delete_lesson_rows : ℕ → ℕ → Method Tables LessonError (List ℕ)
delete_lesson_rows offering id t = dropped id t (find_lesson offering id t)

-- `DeleteLesson`
unfoldable pub delete_lesson : ℕ → ℕ → Method Tables LessonError Done
delete_lesson offering id = do inode_ids ← delete_lesson_rows offering id; unlink_each inode_ids

abbrev pub created_or_undone :
    LessonAttachment → Result LessonError Done → Method Tables LessonError LessonAttachment
created_or_undone a (ok _) = pure a
created_or_undone a (err e) = do unlink_logged a.inode_id; throw e

abbrev pub attachment_of : ℕ → ℕ → Option ℕ → ℕ → Content → LessonAttachment
attachment_of lesson_id actor display_name fresh file = record {
  id = fresh;
  lesson_id = lesson_id;
  inode_id = file.inode_id;
  display_name = value_or display_name file.name;
  added_by = actor;
}

-- `Attach`, with the number that stands for the call of `uuid.New`, and the display name when the
-- request has one.
unfoldable pub attach : ℕ → ℕ → ℕ → ℕ → Option ℕ → ℕ → Method Tables LessonError LessonAttachment
attach offering lesson_id actor upload_id display_name fresh = do
  get_lesson offering lesson_id
  file ← through translate (resolve_upload actor upload_id)
  through of_files (link file.inode_id)
  created ← attempt (create_attachment (attachment_of lesson_id actor display_name fresh file))
  created_or_undone (attachment_of lesson_id actor display_name fresh file) created

unfoldable pub detach : ℕ → ℕ → ℕ → Method Tables LessonError Done
detach offering lesson_id attachment_id = do
  get_lesson offering lesson_id
  inode_id ← delete_attachment lesson_id attachment_id
  unlink_logged inode_id
