-- ===== src/Files/Linking.antt =====
-- The calls of internal/classroom/files_reader.go count several references, and take them back.
use e_campus_server.Prelude.{
  ℕ, ◌+◌, ◌≡◌, refl, sym, ap, ◌∙◌, subst, inl, inr, List, [], ◌∷◌, ◌++◌, ◌==◌, arith, count_where,
  Result, ok, err, Done, throw, ◌>>◌,
}
use e_campus_server.Files.Data.{Inode}
use e_campus_server.Files.Postgres.{Tables}
use e_campus_server.Files.Tally.{Tallied, Tallied-refs, extra, link-cases, unlink-cases}
use e_campus_server.Files.Lessons.{
  LessonError, unlink_logged, unlink_each, link_rest, link_all, link_next, adapted, of_files,
}

abbrev pub occurrences : ℕ → List ℕ → ℕ
occurrences x ids = count_where (λ i. i == x) ids

-- One more reference for each of `ids`.
abbrev pub extras : List ℕ → (ℕ → ℕ) → ℕ → ℕ
extras ids refs x = refs x + occurrences x ids

pub unlink_each-cases :
    (ids : List ℕ) (refs : ℕ → ℕ) (t : Tables)
    → Tallied (extras ids refs) t.inodes
    → (rows : List Inode) × (unlink_each ids t ≡ (ok tt, record t { inodes = rows }))
      × Tallied refs rows
unfolding unlink_each unlink_logged
unlink_each-cases [] refs t tallied =
    (t.inodes, refl, Tallied-refs (extras [] refs) refs t.inodes (λ x. omega arith) tallied)
unlink_each-cases (i ∷ ids) refs t tallied =
    let (rows, done, left) = unlink-cases i (extras ids refs) t (
      Tallied-refs (extras (i ∷ ids) refs) (extra i (extras ids refs)) t.inodes (λ x. omega arith)
        tallied) in
    let (rows', done', left') = unlink_each-cases ids refs (record t { inodes = rows }) left in
    (rows', ap (λ p. unlink_each ids p.1) done ∙ done', left')

occurrences_append :
    (x : ℕ) (done ids : List ℕ)
    → occurrences x (done ++ ids) ≡ occurrences x done + occurrences x ids
occurrences_append x [] ids = omega arith
occurrences_append x (i ∷ done) ids = omega (arith, occurrences_append x done ids)

-- Either every file is counted once more, or there is an error and none is.
abbrev pub AllOrNone : (ℕ → ℕ) → List ℕ → Tables → Result LessonError Done × Tables → Type 0
AllOrNone refs ids t (ok _, t') =
    (rows : List Inode) × (t' ≡ record t { inodes = rows }) × Tallied (extras ids refs) rows
AllOrNone refs ids t (err e, t') =
    (rows : List Inode) × (t' ≡ record t { inodes = rows }) × Tallied refs rows

AllOrNone-again :
    (refs : ℕ → ℕ) (ids all : List ℕ) (t : Tables) (rows : List Inode)
    (r : Result LessonError Done × Tables)
    → ((x : ℕ) → extras all refs x ≡ extras ids refs x)
    → AllOrNone refs ids (record t { inodes = rows }) r
    → AllOrNone refs all t r
AllOrNone-again refs ids all t rows (ok _, t') same (rows', left, tallied) =
    (rows', left, Tallied-refs (extras ids refs) (extras all refs) rows' same tallied)
AllOrNone-again refs ids all t rows (err e, t') same h = h

link_rest-AllOrNone :
    (done ids : List ℕ) (refs : ℕ → ℕ) (t : Tables)
    → Tallied (extras done refs) t.inodes
    → AllOrNone refs (done ++ ids) t (link_rest done ids t)
unfolding link_rest
link_rest-AllOrNone done [] refs t tallied = (
  t.inodes,
  refl,
  Tallied-refs (extras done refs) (extras (done ++ []) refs) t.inodes
      (λ x. omega (arith, occurrences_append x done [])) tallied,
)
link_rest-AllOrNone done (i ∷ ids) refs t tallied =
    elim (link-cases i (extras done refs) t tallied) [
      | inl (rows, linked_, tallied') ↦
          subst (AllOrNone refs (done ++ (i ∷ ids)) t)
            (sym (
              ap (λ p. link_next done (link_rest (done ++ (i ∷ [])) ids) (adapted of_files p.0) p.1)
                linked_))
            (AllOrNone-again refs ((done ++ (i ∷ [])) ++ ids) (done ++ (i ∷ ids)) t rows _
              (λ x. omega (
                arith,
                occurrences_append x done (i ∷ ids),
                occurrences_append x (done ++ (i ∷ [])) ids,
                occurrences_append x done (i ∷ []),
              ))
              (link_rest-AllOrNone (done ++ (i ∷ [])) ids refs (record t { inodes = rows })
                (Tallied-refs (extra i (extras done refs)) (extras (done ++ (i ∷ [])) refs) rows
                  (λ x. omega (arith, occurrences_append x done (i ∷ []))) tallied')))
      | inr (e, missed_) ↦
          let refused : Result LessonError Done × Tables → Result LessonError Done × Tables =
            λ p. ((λ _. p) >> throw (of_files e)) t in
          let (rows, undone, left) = unlink_each-cases done refs t tallied in
          subst (AllOrNone refs (done ++ (i ∷ ids)) t)
            (sym (
              ap (λ p. link_next done (link_rest (done ++ (i ∷ [])) ids) (adapted of_files p.0) p.1)
                missed_
              ∙ ap refused undone))
            (rows, refl, left)
    ]

-- With right link counts, linkAll either counts one reference more for each file, as often as it is
-- listed, or it answers an error and the counts are right for the references as they were.
pub link_all-AllOrNone :
    (ids : List ℕ) (refs : ℕ → ℕ) (t : Tables)
    → Tallied refs t.inodes
    → AllOrNone refs ids t (link_all ids t)
unfolding link_all
link_all-AllOrNone ids refs t tallied =
    link_rest-AllOrNone [] ids refs t
      (Tallied-refs refs (extras [] refs) t.inodes (λ x. omega arith) tallied)
