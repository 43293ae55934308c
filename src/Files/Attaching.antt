-- ===== src/Files/Attaching.antt =====
-- Attaching to a lesson, detaching and deleting the lesson leave right link counts.
use e_campus_server.Prelude.{
  ℕ, ◌+◌, ◌≡◌, refl, sym, subst, inl, inr, Bool, not, Option, none, some, List, [], ◌∷◌, ◌==◌,
  arith, Bool-cases, if◌then◌else◌, any, find, keep, map, is_set, count_where, row_at, Keeps,
  bind-Keeps, guard-Keeps, pure-Keeps, Result, ok, err, Done, Method, ◌>>=◌, ◌>>◌, attempt,
}
use e_campus_server.Files.Data.{Error, Lesson, LessonAttachment}
use e_campus_server.Files.Postgres.{
  Tables, inode_key, attachments_of, references, link, unlink, get_content,
}
use e_campus_server.Files.Service.{resolve_upload}
use e_campus_server.Files.Tally.{Tallied, Tallied-refs, extra, link-cases, unlink-cases}
use e_campus_server.Files.Counted.{Counted}
use e_campus_server.Files.Linking.{occurrences, unlink_each-cases}
use e_campus_server.Files.Lessons.{
  LessonError, translate, get_lesson, find_lesson, through, adapted, of_files, attach, detach,
  delete_lesson, delete_lesson_rows, delete_attachment, create_attachment, created_or_undone,
  attachment_of, unlink_logged, unlink_each, is_attachment, in_lesson, drop_lesson, dropped,
  deleted_or_missing, without, clashes, lesson_key,
}

-- A call that only reads.
get_lesson-Keeps : (offering id : ℕ) → Keeps Counted (get_lesson offering id)
unfolding Keeps get_lesson
get_lesson-Keeps offering id t counted = counted

get_content-Keeps : (id : ℕ) → Keeps Counted (get_content id)
unfolding Keeps get_content
get_content-Keeps id t counted = counted

resolve_upload-Keeps : (actor id : ℕ) → Keeps Counted (resolve_upload actor id)
unfolding resolve_upload
resolve_upload-Keeps actor id =
    bind-Keeps Counted (get_content id) _ (get_content-Keeps id)
      (λ c. guard-Keeps Counted (not (c.0.uploader_id == actor)) _ _ (pure-Keeps Error Counted _))

through-Keeps :
    {A : Type 0} (f : Error → LessonError) (m : Method Tables Error A)
    → Keeps Counted m
    → Keeps Counted (through f m)
unfolding Keeps
through-Keeps f m h t counted = h t counted

undone :
    (id : ℕ) (t : Tables)
    → Tallied (extra id (λ x. references x t)) t.inodes
    → Counted (unlink id t).1
unfolding Counted
undone id t tallied =
    let (rows, done, left) = unlink-cases id (λ x. references x t) t tallied in
    subst (λ p. Tallied (λ x. references x p.1) p.1.inodes) (sym done) left

-- A reference that is counted before its row is there.
create_attachment-Counted :
    (a : LessonAttachment) (t : Tables)
    → Tallied (extra a.inode_id (λ x. references x t)) t.inodes
    → Counted ((attempt (create_attachment a) >>= created_or_undone a) t).1
unfolding create_attachment unlink_logged Counted
create_attachment-Counted a t tallied = elim (Bool-cases (any (clashes a) t.attachments)) [
  | inl clash ↦ rw clash (undone a.inode_id t tallied)
  | inr free ↦ elim (Bool-cases (is_set (row_at lesson_key a.lesson_id t.lessons))) [
    | inr orphan ↦ rw (free, orphan) (undone a.inode_id t tallied)
    | inl lesson ↦ elim (Bool-cases (is_set (row_at inode_key a.inode_id t.inodes))) [
      | inr missing ↦ rw (free, lesson, missing) (undone a.inode_id t tallied)
      | inl there ↦
          rw (free, lesson, there)
            (Tallied-refs (extra a.inode_id (λ x. references x t)) _ t.inodes (λ x. omega arith)
              tallied)
    ]
  ]
]

Counted-Tallied : (t : Tables) → Counted t → Tallied (λ x. references x t) t.inodes
unfolding Counted
Counted-Tallied t counted = counted

linked-Counted :
    (a : LessonAttachment)
    → Keeps Counted (
        through of_files (link a.inode_id)
        >> (attempt (create_attachment a) >>= created_or_undone a))
unfolding Keeps
linked-Counted a t counted =
    elim (link-cases a.inode_id (λ x. references x t) t (Counted-Tallied t counted)) [
      | inl (rows, linked_, tallied) ↦
          subst (λ p. Counted (rest (adapted of_files p.0) p.1).1) (sym linked_)
            (create_attachment-Counted a (record t { inodes = rows }) tallied)
      | inr (e, missed_) ↦
          subst (λ p. Counted (rest (adapted of_files p.0) p.1).1) (sym missed_) counted
    ]
  where
    rest : Result LessonError Done → Method Tables LessonError LessonAttachment
    rest r = (λ s. (r, s)) >> (attempt (create_attachment a) >>= created_or_undone a)

pub attach-Counted :
    (offering lesson actor upload_id : ℕ) (display_name : Option ℕ) (fresh : ℕ)
    → Keeps Counted (attach offering lesson actor upload_id display_name fresh)
unfolding attach
attach-Counted offering lesson actor upload_id display_name fresh =
    bind-Keeps Counted (get_lesson offering lesson) _ (get_lesson-Keeps offering lesson) (λ _.
      bind-Keeps Counted (through translate (resolve_upload actor upload_id)) _
        (through-Keeps translate _ (resolve_upload-Keeps actor upload_id))
        (λ file. linked-Counted (attachment_of lesson actor display_name fresh file)))

-- One row less.
count_without :
    (p q : LessonAttachment → Bool) (rows : List LessonAttachment) (a : LessonAttachment)
    → find p rows ≡ some a
    → count_where q rows ≡ count_where q (without p rows) + (if q a then 1 else 0)
count_without p q [] a e = cc
count_without p q (x ∷ rows) a e = elim (Bool-cases (p x)) [
  | inl hit ↦ ground (arith, hit)
  | inr miss ↦ ground (arith, miss, count_without p q rows a)
]

dropped-Counted : (lesson id : ℕ) → Keeps Counted (delete_attachment lesson id >>= unlink_logged)
unfolding Keeps delete_attachment unlink_logged Counted
dropped-Counted lesson id t counted = go (find (is_attachment lesson id) t.attachments) refl
  where
    go :
        (o : Option LessonAttachment)
        → find (is_attachment lesson id) t.attachments ≡ o
        → Counted (((λ _. deleted_or_missing lesson id t o) >>= unlink_logged) t).1
    go none q = counted
    go (some a) q =
        undone a.inode_id
          (record t { attachments = without (is_attachment lesson id) t.attachments })
          (Tallied-refs (λ x. references x t) _ t.inodes
            (λ x. omega (
              arith,
              count_without (is_attachment lesson id) (λ b. b.inode_id == x) t.attachments a q,
            ))
            counted)

pub detach-Counted : (offering lesson id : ℕ) → Keeps Counted (detach offering lesson id)
unfolding detach
detach-Counted offering lesson id =
    bind-Keeps Counted (get_lesson offering lesson) _ (get_lesson-Keeps offering lesson)
      (λ _. dropped-Counted lesson id)

attachments_split :
    (p : LessonAttachment → Bool) (x : ℕ) (rows : List LessonAttachment)
    → attachments_of x rows
      ≡ attachments_of x (keep (λ a. not (p a)) rows)
        + occurrences x (map (λ a. a.inode_id) (keep p rows))
attachments_split p x [] = refl
attachments_split p x (a ∷ rows) = elim (Bool-cases (p a)) [
  | inl hit ↦ ground (arith, hit, attachments_split p x rows)
  | inr miss ↦ ground (arith, miss, attachments_split p x rows)
]

pub delete_lesson-Counted : (offering id : ℕ) → Keeps Counted (delete_lesson offering id)
unfolding Keeps delete_lesson delete_lesson_rows Counted
delete_lesson-Counted offering id t counted = go (find_lesson offering id t)
  where
    go : (r : Result LessonError Lesson) → Counted (((λ _. dropped id t r) >>= unlink_each) t).1
    go (err e) = counted
    go (ok _) =
        let gone : List ℕ = map (λ a. a.inode_id) (keep (in_lesson id) t.attachments) in
        let (rows, done, left) =
          unlink_each-cases gone (λ x. references x (drop_lesson id t)) (drop_lesson id t)
            (Tallied-refs (λ x. references x t) _ t.inodes
              (λ x. omega (arith, attachments_split (in_lesson id) x t.attachments)) counted) in
        subst (λ p. Tallied (λ x. references x p.1) p.1.inodes) (sym done) left
