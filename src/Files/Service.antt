-- ===== src/Files/Service.antt =====
-- internal/files/inode.go, upload.go, janitor.go: the service, over the tables and an object store.
use e_campus_server.Prelude.{
  ℕ, ◌+◌, ◌-◌, Bool, true, false, not, List, [], ◌∷◌, ◌==◌, Result, ok, err, Method, Done, pure,
  throw_if, attempt, ◌>>=◌, ◌>>◌,
}
use e_campus_server.Files.Data.{
  Error, upload_not_found, name_invalid, file_too_large, Inode, Upload, Content, Key, object_key,
  object_key_for, temp_key, can_store, valid_file_name, upload_ttl,
}
use e_campus_server.Files.Postgres.{
  Tables, get, gc_candidates, reclaim, create_upload, get_content, expire_before,
}

-- The port `ObjectStore` on a store of any kind. `Put` is given the content by its hash.
pub record ObjectStore (B : Type 0) : Type 0 where
  pub put : Key → ℕ → Method B Error Done
  pub server_copy : Key → Key → Method B Error Done
  pub presign : Key → ℕ → ℕ → Method B Error ℕ
  pub remove : Key → Method B Error Done
  -- The derived objects of a hash.
  pub remove_derived : ℕ → Method B Error Done

-- The database and the object store.
pub record World (B : Type 0) : Type 0 where
  pub tables : Tables
  pub bytes : B

-- `ResolveUpload`
unfoldable pub resolve_upload : ℕ → ℕ → Method Tables Error Content
resolve_upload actor upload_id = do
  content ← get_content upload_id
  throw_if (not (content.0.uploader_id == actor)) upload_not_found
  pure (record {
    inode_id = content.0.inode_id;
    name = content.0.name;
    size_bytes = content.1.size_bytes;
    mime_type = content.1.mime_type;
  })

-- `ExpireUploads`; `now` stands for the call of `time.Now`.
unfoldable pub expire_uploads : ℕ → Method Tables Error ℕ
expire_uploads now = expire_before (now - upload_ttl)

module _ {B : Type 0} where
  abbrev pub on_tables : {A : Type 0} → Method Tables Error A → Method (World B) Error A
  on_tables m w = let (r, t) = m w.tables in (r, record w { tables = t })

  abbrev pub on_bytes : {A : Type 0} → Method B Error A → Method (World B) Error A
  on_bytes m w = let (r, b) = m w.bytes in (r, record w { bytes = b })

module _ {B : Type 0} (store : ObjectStore B) where
  -- `Presign`
  unfoldable pub presign : ℕ → ℕ → Method (World B) Error ℕ
  presign id filename = do
    inode ← on_tables (get id)
    on_bytes (store.presign (object_key inode) filename inode.mime_type)

  -- `Upload`, on the name with its length, the content by its hash, the per-file limit, and the number
  -- that stands for the call of `uuid.New`.
  unfoldable pub upload :
      Method (World B) Error ℕ → ℕ → ℕ → ℕ → ℕ → ℕ → ℕ → ℕ → Method (World B) Error Upload
  unfolding valid_file_name can_store object_key_for temp_key
  upload limits upload_attempt uploader name name_length size mime_type hash = do
    throw_if (not (valid_file_name name_length)) name_invalid
    max ← limits
    throw_if (not (can_store size max)) file_too_large
    on_bytes (store.put (temp_key upload_attempt) hash)
    on_bytes (store.server_copy (temp_key upload_attempt) (object_key_for hash))
    attempt (on_bytes (store.remove (temp_key upload_attempt)))
    on_tables (
        create_upload (record {
          uploader_id = uploader;
          name = name;
          content_hash = hash;
          size_bytes = size;
          mime_type = mime_type;
        }))

  -- The removals after a row is gone; their failures are only logged.
  unfoldable pub remove_objects : Inode → Method (World B) Error Done
  unfolding object_key
  remove_objects inode = do
    attempt (on_bytes (store.remove (object_key inode)))
    attempt (on_bytes (store.remove_derived inode.content_hash))
    pure tt

  -- One round of the sweep's loop: 1 when the candidate was reclaimed.
  abbrev pub after_reclaim : Inode → Result Error Bool → Method (World B) Error ℕ
  after_reclaim inode (err e) = pure 0
  after_reclaim inode (ok false) = pure 0
  after_reclaim inode (ok true) = do remove_objects inode; pure 1

  unfoldable pub sweep_one : Inode → Method (World B) Error ℕ
  unfolding remove_objects
  sweep_one inode = do deleted ← attempt (on_tables (reclaim inode)); after_reclaim inode deleted

  unfoldable pub sweep_all : List Inode → Method (World B) Error ℕ
  unfolding sweep_one
  sweep_all [] = pure 0
  sweep_all (i ∷ rows) = do n ← sweep_one i; rest ← sweep_all rows; pure (n + rest)

  -- `SweepGC`
  unfoldable pub sweep_gc : ℕ → Method (World B) Error ℕ
  unfolding sweep_all
  sweep_gc batch = do candidates ← on_tables (gc_candidates batch); sweep_all candidates

  -- One tick of the janitor: both sweeps, each failure only logged.
  unfoldable pub janitor_tick : ℕ → Method (World B) Error Done
  unfolding sweep_gc expire_uploads
  janitor_tick now = do attempt (on_tables (expire_uploads now)); attempt (sweep_gc 100); pure tt
