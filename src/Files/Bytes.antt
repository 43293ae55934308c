-- ===== src/Files/Bytes.antt =====
-- The bytes behind a receipt: internal/files/inode.go and upload.go over an object store of which only
-- what a copy and a removal do to one key is assumed.
use e_campus_server.Prelude.{
  ℕ, ◌≡◌, ◌≢◌, ==_iff, row_at-key, refl, sym, ap, subst, inl, inr, Bool, true, not, Option, none,
  some, List, ◌==◌, Bool-cases, is_set, affect, row_at, affect-some, row_at-key_of,
  replace_row-key_of, row_at-replace_row_self, Distinct, Result, ok, err, Done, lift, attempt, ◌>>◌,
  throw_if,
}
use e_campus_server.Files.Data.{
  Error, Inode, Upload, UploadInput, Key, at_hash, temp, object_key, temp_key, object_key_for,
  valid_file_name, can_store, file_too_large,
}
use e_campus_server.Files.Postgres.{
  Tables, inode_key, hash_key, claim, claimed_again, new_inode, create_upload,
}
use e_campus_server.Files.Tally.{Tallied}
use e_campus_server.Files.Counted.{Counted}
use e_campus_server.Files.Service.{ObjectStore, World, on_tables, on_bytes, upload}

same_number : (n : ℕ) → (n == n) ≡ true
same_number n = (==_iff n n).1 refl

-- A receipt whose inode has a row, with the bytes at the content's address.
abbrev pub AtAddress : ℕ → Result Error Upload × Tables → Type 0
AtAddress hash (err e, t) = Unit
AtAddress hash (ok u, t) =
    (i : Inode) × (row_at inode_key u.inode_id t.inodes ≡ some i) × (object_key i ≡ at_hash hash)

pub create_upload-AtAddress :
    (input : UploadInput) (t : Tables)
    → Distinct inode_key t.inodes
    → AtAddress input.content_hash (create_upload input t)
unfolding create_upload object_key row_at
create_upload-AtAddress input t ids =
    go (affect hash_key input.content_hash (λ i. true) claimed_again t.inodes) refl
  where
    go :
        (o : Option (Inode × List Inode))
        → affect hash_key input.content_hash (λ i. true) claimed_again t.inodes ≡ o
        → AtAddress input.content_hash (claim input t o)
    go none q = elim (Bool-cases (is_set (row_at inode_key t.fresh_inode t.inodes))) [
      | inl taken ↦ rw taken tt
      | inr free ↦ rw free (new_inode input t, rw (same_number t.fresh_inode) refl, refl)
    ]
    go (some (i, rows)) q =
        let (r, there, _, is_i, is_rows) =
          affect-some hash_key input.content_hash (λ i. true) claimed_again t.inodes {r' = i}
            {rows' = rows} q in
        (
          claimed_again r,
          rw (is_i, is_rows)
              (subst (λ rows. row_at inode_key r.id rows ≡ some (claimed_again r))
                (sym (
                  replace_row-key_of inode_key hash_key input.content_hash claimed_again t.inodes r
                    ids there))
                (row_at-replace_row_self inode_key r.id claimed_again t.inodes {r = r}
                  (row_at-key_of inode_key hash_key input.content_hash t.inodes r ids there) refl)),
          ap at_hash (row_at-key hash_key input.content_hash t.inodes {r = r} there),
        )

module _ {B : Type 0} (store : ObjectStore B) (has : Key → B → Bool) where
  -- The receipt's inode has a row, which says that the bytes are at the content's address; there they
  -- are, or are not.
  abbrev pub BytesAre : Bool → ℕ → Result Error Upload × World B → Type 0
  BytesAre present hash (err e, w) = Unit
  BytesAre present hash (ok u, w) =
      (i : Inode) × (row_at inode_key u.inode_id w.tables.inodes ≡ some i)
      × (object_key i ≡ at_hash hash)
      × (has (at_hash hash) w.bytes ≡ present)

  BytesAre-AtAddress :
      (hash : ℕ) (r : Result Error Upload) (t : Tables) (b : B)
      → AtAddress hash (r, t)
      → has (at_hash hash) b ≡ true
      → BytesAre true hash (r, record { tables = t; bytes = b })
  BytesAre-AtAddress hash (err e) t b at h = tt
  BytesAre-AtAddress hash (ok u) t b (i, row, key) h = (i, row, key, h)

  module _
      (copied : (src dst : Key) (b : B)
        → (store.server_copy src dst b).0 ≡ ok tt
        → has dst (store.server_copy src dst b).1 ≡ true)
      (kept : (k other : Key) (b : B)
        → k ≢ other
        → has other b ≡ true
        → has other (store.remove k b).1 ≡ true) where
    stored :
        (attempt_ hash : ℕ) (input : UploadInput) (w : World B)
        → Distinct inode_key w.tables.inodes
        → input.content_hash ≡ hash
        → (r : Result Error Done) → (store.server_copy (temp attempt_) (at_hash hash) w.bytes).0 ≡ r
        → BytesAre true hash (
            ((λ _. (
              r,
              record w { bytes = (store.server_copy (temp attempt_) (at_hash hash) w.bytes).1 },
            ))
                >> (attempt (on_bytes (store.remove (temp attempt_)))
                    >> on_tables (create_upload input)))
              w)
    stored attempt_ hash input w ids same (err e) q = tt
    stored attempt_ hash input w ids same (ok _) q =
        let b : B = (store.server_copy (temp attempt_) (at_hash hash) w.bytes).1 in
        BytesAre-AtAddress hash (create_upload input w.tables).0 (create_upload input w.tables).1
          (store.remove (temp attempt_) b).1
          (subst (λ h. AtAddress h (create_upload input w.tables)) same
            (create_upload-AtAddress input w.tables ids))
          (kept (temp attempt_) (at_hash hash) b (λ e. cc)
            (copied (temp attempt_) (at_hash hash) w.bytes q))

    put_stored :
        (attempt_ hash : ℕ) (input : UploadInput) (w : World B)
        → Distinct inode_key w.tables.inodes
        → input.content_hash ≡ hash
        → (r : Result Error Done) (b : B)
        → BytesAre true hash (
            ((λ _. (r, record w { bytes = b }))
                >> (on_bytes (store.server_copy (temp attempt_) (at_hash hash))
                    >> (attempt (on_bytes (store.remove (temp attempt_)))
                        >> on_tables (create_upload input))))
              w)
    put_stored attempt_ hash input w ids same (err e) b = tt
    put_stored attempt_ hash input w ids same (ok _) b =
        stored attempt_ hash input (record w { bytes = b }) ids same
          (store.server_copy (temp attempt_) (at_hash hash) b).0 refl

    -- Over an object store whose copies arrive and whose removals leave other keys alone: when Upload
    -- answers a receipt, its inode has a row, which points at the content's address, and the bytes are
    -- there.
    pub upload-BytesAre :
        (limits : Result Error ℕ) (tmp uploader name name_length size mime hash : ℕ) (w : World B)
        → Counted w.tables
        → BytesAre true hash
            (upload store (lift limits) tmp uploader name name_length size mime hash w)
    unfolding upload temp_key object_key_for Counted Tallied
    upload-BytesAre limits tmp uploader name name_length size mime hash w (ids, _, _) =
        elim (Bool-cases (valid_file_name name_length)) [
          | inr invalid ↦ rw invalid tt
          | inl valid ↦ rw valid (within limits)
        ]
      where
        input : UploadInput
        input = record {
          uploader_id = uploader;
          name = name;
          content_hash = hash;
          size_bytes = size;
          mime_type = mime;
        }

        within :
            (r : Result Error ℕ)
            → BytesAre true hash (elim r as (λ _. Result Error Upload × World B) [
              | ok max ↦
                  (throw_if (not (can_store size max)) file_too_large
                      >> (on_bytes (store.put (temp tmp) hash)
                          >> (on_bytes (store.server_copy (temp tmp) (at_hash hash))
                              >> (attempt (on_bytes (store.remove (temp tmp)))
                                  >> on_tables (create_upload input)))))
                    w
              | err e ↦ (err e, w)
            ])
        within (err e) = tt
        within (ok max) = elim (Bool-cases (can_store size max)) [
          | inr large ↦ rw large tt
          | inl fits ↦ rw fits (
              put_stored tmp hash input w ids refl (store.put (temp tmp) hash w.bytes).0
                (store.put (temp tmp) hash w.bytes).1)
        ]
