-- ===== src/Files/Serving.antt =====
-- Any sequence of requests and janitor ticks of internal/files, with the attachments of
-- internal/classroom/content.go.
use e_campus_server.Prelude.{
  ℕ, ◌+◌, ◌-◌, refl, Bool, true, false, not, Option, List, [], ◌∷◌, Result, ok, err, Method, Keeps,
  bind-Keeps, pure-Keeps, attempt-Keeps, lift, attempt, throw_if, ◌>>◌, Bool-cases, inl, inr,
  Distinct, row_at,
}
use e_campus_server.Files.Data.{
  Error, Inode, Upload, UploadInput, at_hash, temp, temp_key, object_key_for, file_too_large,
  Lesson, valid_file_name, can_store, upload_ttl,
}
use e_campus_server.Files.Postgres.{
  Tables, inode_key, references, reclaim, gc_candidates, create_upload,
}
use e_campus_server.Files.Service.{
  ObjectStore, World, on_tables, on_bytes, upload, expire_uploads, remove_objects, after_reclaim,
  sweep_one, sweep_all, sweep_gc, janitor_tick,
}
use e_campus_server.Files.Lessons.{attach, detach, delete_lesson}
use e_campus_server.Files.Tally.{TalliedRow, Tallied}
use e_campus_server.Files.Counted.{
  Counted, create_upload-Counted, reclaim-Counted, expire_before-Counted,
}
use e_campus_server.Files.Attaching.{attach-Counted, detach-Counted, delete_lesson-Counted}

-- A request with the times, the new ids and the caller that it comes with, or a tick of the janitor.
pub data Request : Type 0 where
  uploads : Result Error ℕ → ℕ → ℕ → ℕ → ℕ → ℕ → ℕ → ℕ → Request
  attaches : ℕ → ℕ → ℕ → ℕ → Option ℕ → ℕ → Request
  detaches : ℕ → ℕ → ℕ → Request
  deletes : ℕ → ℕ → Request
  ticks : ℕ → Request

abbrev pub no_files : List Lesson → ℕ → ℕ → ℕ → Tables
no_files lessons fresh_inode fresh_upload now = record {
  inodes = [];
  uploads = [];
  lessons = lessons;
  attachments = [];
  fresh_inode = fresh_inode;
  fresh_upload = fresh_upload;
  now = now;
}

module _ (B : Type 0) where
  abbrev CountedWorld : World B → Type 0
  CountedWorld w = Counted w.tables

  on_tables-Keeps :
      {A : Type 0} (m : Method Tables Error A) → Keeps Counted m → Keeps CountedWorld (on_tables m)
  unfolding Keeps
  on_tables-Keeps m h w counted = h w.tables counted

  on_bytes-Keeps : {A : Type 0} (m : Method B Error A) → Keeps CountedWorld (on_bytes m)
  unfolding Keeps
  on_bytes-Keeps m w counted = counted

module _ {B : Type 0} (store : ObjectStore B) where
  -- The end of an upload, after the checks.
  stored-Keeps :
      (tmp : ℕ) (hash : ℕ) (input : UploadInput)
      → Keeps (CountedWorld B) (
          on_bytes (store.put (temp tmp) hash)
          >> (on_bytes (store.server_copy (temp tmp) (at_hash hash))
              >> (attempt (on_bytes (store.remove (temp tmp))) >> on_tables (create_upload input))))
  stored-Keeps tmp hash input =
      bind-Keeps (CountedWorld B) (on_bytes (store.put (temp tmp) hash)) _
        (on_bytes-Keeps B (store.put (temp tmp) hash))
        (λ _.
          bind-Keeps (CountedWorld B) (on_bytes (store.server_copy (temp tmp) (at_hash hash))) _
            (on_bytes-Keeps B (store.server_copy (temp tmp) (at_hash hash)))
            (λ _.
              bind-Keeps (CountedWorld B) (attempt (on_bytes (store.remove (temp tmp)))) _
                (attempt-Keeps (CountedWorld B) (on_bytes (store.remove (temp tmp)))
                  (on_bytes-Keeps B (store.remove (temp tmp))))
                (λ _. on_tables-Keeps B (create_upload input) (create_upload-Counted input))))

  upload-Keeps :
      (limits : Result Error ℕ) (tmp uploader name name_length size mime hash : ℕ)
      → Keeps
          (CountedWorld B)
          (upload store (lift limits) tmp uploader name name_length size mime hash)
  unfolding Keeps upload temp_key object_key_for
  upload-Keeps limits tmp uploader name name_length size mime hash w counted =
      elim (Bool-cases (valid_file_name name_length)) [
        | inr invalid ↦ rw invalid counted
        | inl valid ↦ rw valid (within limits)
      ]
    where
      input : UploadInput
      input = record {
        uploader_id = uploader;
        name = name;
        content_hash = hash;
        size_bytes = size;
        mime_type = mime;
      }

      within :
          (r : Result Error ℕ)
          → Counted
              (elim r as (λ _. Result Error Upload × World B) [
                | ok max ↦
                    (throw_if (not (can_store size max)) file_too_large
                        >> (on_bytes (store.put (temp tmp) hash)
                            >> (on_bytes (store.server_copy (temp tmp) (at_hash hash))
                                >> (attempt (on_bytes (store.remove (temp tmp)))
                                    >> on_tables (create_upload input)))))
                      w
                | err e ↦ (err e, w)
              ]).1.tables
      within (err e) = counted
      within (ok max) = elim (Bool-cases (can_store size max)) [
        | inr large ↦ rw large counted
        | inl fits ↦ rw fits (stored-Keeps tmp hash input w counted)
      ]

  remove_objects-Keeps : (i : Inode) → Keeps (CountedWorld B) (remove_objects store i)
  unfolding Keeps remove_objects
  remove_objects-Keeps i w counted = counted

  after_reclaim-Keeps :
      (i : Inode) (r : Result Error Bool) → Keeps (CountedWorld B) (after_reclaim store i r)
  unfolding Keeps remove_objects
  after_reclaim-Keeps i (err e) w counted = counted
  after_reclaim-Keeps i (ok false) w counted = counted
  after_reclaim-Keeps i (ok true) w counted = counted

  sweep_one-Keeps : (i : Inode) → Keeps (CountedWorld B) (sweep_one store i)
  unfolding Keeps sweep_one
  sweep_one-Keeps i w counted =
      after_reclaim-Keeps i (reclaim i w.tables).0 (record w { tables = (reclaim i w.tables).1 })
        (reclaim-Counted i w.tables counted)

  sweep_all-Keeps : (rows : List Inode) → Keeps (CountedWorld B) (sweep_all store rows)
  unfolding sweep_all
  sweep_all-Keeps [] = pure-Keeps Error (CountedWorld B) 0
  sweep_all-Keeps (i ∷ rows) =
      bind-Keeps (CountedWorld B) (sweep_one store i) _ (sweep_one-Keeps i) (λ n.
        bind-Keeps (CountedWorld B) (sweep_all store rows) _ (sweep_all-Keeps rows)
          (λ rest. pure-Keeps Error (CountedWorld B) (n + rest)))

  candidates-Keeps : (batch : ℕ) → Keeps Counted (gc_candidates batch)
  unfolding Keeps gc_candidates
  candidates-Keeps batch t counted = counted

  janitor_tick-Keeps : (now : ℕ) → Keeps (CountedWorld B) (janitor_tick store now)
  unfolding janitor_tick expire_uploads sweep_gc
  janitor_tick-Keeps now =
      bind-Keeps (CountedWorld B) (attempt (on_tables (expire_uploads now))) _
        (attempt-Keeps (CountedWorld B) (on_tables (expire_uploads now))
          (on_tables-Keeps B (expire_uploads now) (expire_before-Counted (now - upload_ttl))))
        (λ _.
          bind-Keeps (CountedWorld B) (attempt (sweep_gc store 100)) _
            (attempt-Keeps (CountedWorld B) (sweep_gc store 100) (
              bind-Keeps (CountedWorld B) (on_tables (gc_candidates 100)) _
                (on_tables-Keeps B (gc_candidates 100) (candidates-Keeps 100)) sweep_all-Keeps))
            (λ _. pure-Keeps Error (CountedWorld B) tt))

  -- The database and the object store after one request, whatever it answered.
  unfoldable pub serve : Request → World B → World B
  serve (uploads limits tmp uploader name name_length size mime hash) w =
      (upload store (lift limits) tmp uploader name name_length size mime hash w).1
  serve (attaches offering lesson actor upload_id display_name fresh) w = record w {
    tables = (attach offering lesson actor upload_id display_name fresh w.tables).1;
  }
  serve (detaches offering lesson id) w = record w {
    tables = (detach offering lesson id w.tables).1;
  }
  serve (deletes offering id) w = record w { tables = (delete_lesson offering id w.tables).1 }
  serve (ticks now) w = (janitor_tick store now w).1

  unfoldable pub serve_all : List Request → World B → World B
  serve_all [] w = w
  serve_all (r ∷ rs) w = serve_all rs (serve r w)

  serve-Counted : (r : Request) (w : World B) → Counted w.tables → Counted (serve r w).tables
  unfolding serve Keeps
  serve-Counted (uploads limits tmp uploader name name_length size mime hash) w =
      upload-Keeps limits tmp uploader name name_length size mime hash w
  serve-Counted (attaches offering lesson actor upload_id display_name fresh) w =
      attach-Counted offering lesson actor upload_id display_name fresh w.tables
  serve-Counted (detaches offering lesson id) w = detach-Counted offering lesson id w.tables
  serve-Counted (deletes offering id) w = delete_lesson-Counted offering id w.tables
  serve-Counted (ticks now) w = janitor_tick-Keeps now w

  serve_all-Counted :
      (rs : List Request) (w : World B) → Counted w.tables → Counted (serve_all rs w).tables
  unfolding serve_all
  serve_all-Counted [] w counted = counted
  serve_all-Counted (r ∷ rs) w counted =
      serve_all-Counted rs (serve r w) (serve-Counted r w counted)

  pub no_files-Counted :
      (lessons : List Lesson) (fresh_inode fresh_upload now : ℕ)
      → Counted (no_files lessons fresh_inode fresh_upload now)
  unfolding Counted Tallied Distinct row_at
  no_files-Counted lessons fresh_inode fresh_upload now = (tt, tt, λ id. refl)

  -- Whatever requests were served and ticks ran since there were no files, one after the other: each
  -- inode's link count is the number of receipts and attachments that refer to it, its state is gc
  -- exactly when that is zero and live otherwise, and what is referred to is there.
  pub serve_all-TalliedRow :
      (rs : List Request) (lessons : List Lesson) (fresh_inode fresh_upload now : ℕ) (b : B)
      (id : ℕ)
      → let t =
          (serve_all rs (record {
            tables = no_files lessons fresh_inode fresh_upload now;
            bytes = b;
          })).tables in
        TalliedRow (row_at inode_key id t.inodes) (references id t)
  unfolding Counted Tallied
  serve_all-TalliedRow rs lessons fresh_inode fresh_upload now b id =
      let (ids, hashes, fits) =
        serve_all-Counted rs
          (record { tables = no_files lessons fresh_inode fresh_upload now; bytes = b })
          (no_files-Counted lessons fresh_inode fresh_upload now) in
      fits id
