-- ===== src/Files/Postgres.antt =====
-- internal/files/postgres: the statements on inodes and receipts, each transaction as a function on the
-- tables. The advisory lock makes the claim and the reclaim of one hash exclude each other, so each is
-- one step. Failures of the connection are left out; constraints fail with their SQLSTATE.
use e_campus_server.Prelude.{
  ℕ, zero, suc, ◌+◌, ◌-◌, Bool, true, false, not, ◌&&◌, Option, none, some, List, [], ◌∷◌, ◌==◌,
  ltb, leb, is_set, if◌then◌else◌, any, keep, update_where, count_where, Result, ok, err, Method,
  Done, affect, row_at,
}
use e_campus_server.Files.Data.{
  Error, inode_not_found, upload_not_found, file_gone, failure, live, gc, is_live, is_gc, Inode,
  Upload, UploadInput, Lesson, LessonAttachment,
}

-- Of the tables of the other contexts that refer to an inode, the attachments of lessons.
pub record Tables : Type 0 where
  pub inodes : List Inode
  pub uploads : List Upload
  pub lessons : List Lesson
  pub attachments : List LessonAttachment
  pub fresh_inode : ℕ
  pub fresh_upload : ℕ
  pub now : ℕ

abbrev pub inode_key : Inode → ℕ
inode_key i = i.id

abbrev pub hash_key : Inode → ℕ
hash_key i = i.content_hash

abbrev pub upload_key : Upload → ℕ
upload_key u = u.id

abbrev pub unique_violation : ℕ
unique_violation = 23505

abbrev pub check_violation : ℕ
check_violation = 23514

abbrev found : Option Inode → Result Error Inode
found none = err inode_not_found
found (some i) = ok i

unfoldable pub get : ℕ → Method Tables Error Inode
get id t = (found (row_at inode_key id t.inodes), t)

abbrev pub written_or : Error → Tables → Option (Inode × List Inode) → Result Error Done × Tables
written_or e t none = (err e, t)
written_or e t (some (_, rows)) = (ok tt, record t { inodes = rows })

abbrev pub missed : Bool → Error
missed true = file_gone
missed false = inode_not_found

abbrev pub linked : Inode → Inode
linked i = record i { link_count = i.link_count + 1 }

unfoldable pub link : ℕ → Method Tables Error Done
link id t =
    written_or (missed (is_set (row_at inode_key id t.inodes))) t
      (affect inode_key id (λ i. is_live i.state) linked t.inodes)

-- The counter after `n` references are gone, and the mark at zero.
abbrev pub unlinked : ℕ → Inode → Inode
unlinked n i = record i {
  link_count = i.link_count - n;
  state = if i.link_count - n == 0 then gc else i.state;
}

unfoldable pub unlink : ℕ → Method Tables Error Done
unlink id t =
    written_or inode_not_found t
      (affect inode_key id (λ i. leb 1 i.link_count) (unlinked 1) t.inodes)

abbrev first : ℕ → List Inode → List Inode
first zero rows = []
first (suc n) [] = []
first (suc n) (i ∷ rows) = i ∷ first n rows

unfoldable pub gc_candidates : ℕ → Method Tables Error (List Inode)
gc_candidates limit t = (ok (first limit (keep (λ i. is_gc i.state) t.inodes)), t)

abbrev pub uploads_of : ℕ → List Upload → ℕ
uploads_of id uploads = count_where (λ u. u.inode_id == id) uploads

abbrev pub attachments_of : ℕ → List LessonAttachment → ℕ
attachments_of id attachments = count_where (λ a. a.inode_id == id) attachments

-- The rows that refer to an inode.
abbrev pub references : ℕ → Tables → ℕ
references id t = uploads_of id t.uploads + attachments_of id t.attachments

abbrev pub deletable : Option Inode → Bool
deletable none = false
deletable (some i) = is_gc i.state && i.link_count == 0

abbrev pub delete_inode : ℕ → Tables → Tables
delete_inode id t = record t { inodes = keep (λ i. not (i.id == id)) t.inodes }

-- What restores a row that a foreign key has kept.
abbrev restore_rows : List Inode → Option (Inode × List Inode) → List Inode
restore_rows rows none = rows
restore_rows rows (some (_, rows')) = rows'

abbrev pub restore : ℕ → Tables → Tables
restore id t = record t {
  inodes =
      restore_rows t.inodes
        (affect inode_key id (λ i. true) (λ i. record i { state = live }) t.inodes);
}

-- `Reclaim`; a row that is still referred to violates a foreign key.
unfoldable pub reclaim : Inode → Method Tables Error Bool
reclaim candidate t =
    if not (deletable (row_at inode_key candidate.id t.inodes))
    then (ok false, t)
    else if not (references candidate.id t == 0)
    then (err (failure 23503), restore candidate.id t)
    else (ok true, delete_inode candidate.id t)

-- A dedup hit gains a link and loses its legacy key.
abbrev pub claimed_again : Inode → Inode
claimed_again i = record i { link_count = i.link_count + 1; state = live; legacy_key = none }

abbrev pub new_inode : UploadInput → Tables → Inode
new_inode input t = record {
  id = t.fresh_inode;
  content_hash = input.content_hash;
  size_bytes = input.size_bytes;
  mime_type = input.mime_type;
  link_count = 1;
  state = live;
  legacy_key = none;
  created_at = t.now;
}

abbrev pub receipt : ℕ → UploadInput → Tables → Upload
receipt inode_id input t = record {
  id = t.fresh_upload;
  inode_id = inode_id;
  uploader_id = input.uploader_id;
  name = input.name;
  created_at = t.now;
}

abbrev pub with_receipt : ℕ → UploadInput → Tables → List Inode → Result Error Upload × Tables
with_receipt id input t rows = (
  ok (receipt id input t),
  record t {
    inodes = rows;
    uploads = receipt id input t ∷ t.uploads;
    fresh_upload = t.fresh_upload + 1;
  },
)

-- The upsert by hash, then the receipt. A generated id that is taken violates the primary key.
abbrev pub claim : UploadInput → Tables → Option (Inode × List Inode) → Result Error Upload × Tables
claim input t (some (i, rows)) = with_receipt i.id input t rows
claim input t none =
    if is_set (row_at inode_key t.fresh_inode t.inodes)
    then (err (failure unique_violation), t)
    else with_receipt t.fresh_inode input (record t { fresh_inode = t.fresh_inode + 1 })
        (new_inode input t ∷ t.inodes)

unfoldable pub create_upload : UploadInput → Method Tables Error Upload
create_upload input t =
    claim input t (affect hash_key input.content_hash (λ i. true) claimed_again t.inodes)

abbrev pub joined : Option Upload → List Inode → Result Error (Upload × Inode)
joined none inodes = err upload_not_found
joined (some u) inodes = elim (row_at inode_key u.inode_id inodes) [
  | none ↦ err upload_not_found
  | some i ↦ ok (u, i)
]

unfoldable pub get_content : ℕ → Method Tables Error (Upload × Inode)
get_content id t = (joined (row_at upload_key id t.uploads) t.inodes, t)

abbrev pub expired : ℕ → Upload → Bool
expired cutoff u = ltb u.created_at cutoff

abbrev pub expired_of : ℕ → ℕ → List Upload → ℕ
expired_of cutoff id uploads = count_where (λ u. expired cutoff u && u.inode_id == id) uploads

-- Every inode of an expired receipt loses as many links as it had such receipts. The rows that this
-- changes, and whether one would fall below zero.
abbrev pub affected_by : ℕ → List Upload → Inode → Bool
affected_by cutoff uploads i = not (expired_of cutoff i.id uploads == 0)

abbrev pub overdrawn : ℕ → List Upload → Inode → Bool
overdrawn cutoff uploads i = ltb i.link_count (expired_of cutoff i.id uploads)

-- `ExpireBefore` reports the inodes that it changed.
unfoldable pub expire_before : ℕ → Method Tables Error ℕ
expire_before cutoff t =
    if any (overdrawn cutoff t.uploads) t.inodes then (err (failure check_violation), t) else (
      ok (count_where (affected_by cutoff t.uploads) t.inodes),
      record t {
        inodes =
            update_where (affected_by cutoff t.uploads)
              (λ i. unlinked (expired_of cutoff i.id t.uploads) i) t.inodes;
        uploads = keep (λ u. not (expired cutoff u)) t.uploads;
      },
    )
