-- ===== src/Files/Data.antt =====
-- internal/files/inode.go, upload.go, errors.go: inodes, receipts and the small rules. A content hash
-- and a legacy key are numbers, and a key of the object store is one of the shapes that the code makes.
use e_campus_server.Prelude.{ℕ, Bool, true, false, ◌&&◌, Option, none, some, ltb, leb}

pub data Error : Type 0 where
  inode_not_found upload_not_found name_invalid file_too_large file_gone : Error
  failure : ℕ → Error

-- `other` is any string that is neither constant.
pub data InodeState : Type 0 where
  live gc : InodeState
  other : ℕ → InodeState

unfoldable pub valid_inode_state : InodeState → Bool
valid_inode_state live = true
valid_inode_state gc = true
valid_inode_state _ = false

abbrev pub is_live : InodeState → Bool
is_live live = true
is_live _ = false

abbrev pub is_gc : InodeState → Bool
is_gc gc = true
is_gc _ = false

pub record Inode : Type 0 where
  pub id : ℕ
  pub content_hash : ℕ
  pub size_bytes : ℕ
  pub mime_type : ℕ
  pub link_count : ℕ
  pub state : InodeState
  pub legacy_key : Option ℕ
  pub created_at : ℕ

pub record Upload : Type 0 where
  pub id : ℕ
  pub inode_id : ℕ
  pub uploader_id : ℕ
  pub name : ℕ
  pub created_at : ℕ

-- What an upload resolves to for attaching.
pub record Content : Type 0 where
  pub inode_id : ℕ
  pub name : ℕ
  pub size_bytes : ℕ
  pub mime_type : ℕ

-- Of internal/classroom/content.go: a lesson with the offering of its section, and its attachments,
-- whose order and times are left out.
pub record Lesson : Type 0 where
  pub id : ℕ
  pub offering_id : ℕ

pub record LessonAttachment : Type 0 where
  pub id : ℕ
  pub lesson_id : ℕ
  pub inode_id : ℕ
  pub display_name : ℕ
  pub added_by : ℕ

-- `sha256/…`, a key from before the rebuild, and `tmp/…`.
pub data Key : Type 0 where
  at_hash legacy temp : ℕ → Key

unfoldable pub object_key_for : ℕ → Key
object_key_for content_hash = at_hash content_hash

abbrev pub key_or_hash : Option ℕ → ℕ → Key
key_or_hash (some k) hash = legacy k
key_or_hash none hash = at_hash hash

-- `ObjectKey`
unfoldable pub object_key : Inode → Key
object_key i = key_or_hash i.legacy_key i.content_hash

unfoldable pub temp_key : ℕ → Key
temp_key upload_attempt = temp upload_attempt

-- `CanStore`; a size is not negative here.
unfoldable pub can_store : ℕ → ℕ → Bool
can_store size_bytes max_file_size_bytes = ltb 0 size_bytes && leb size_bytes max_file_size_bytes

-- `ValidFileName`, on the length of the name in bytes.
unfoldable pub valid_file_name : ℕ → Bool
valid_file_name len = leb 1 len && leb len 255

-- `UploadTTL`, in the unit of the times.
abbrev pub upload_ttl : ℕ
upload_ttl = 86400

-- A finished byte stream ready to claim its inode.
pub record UploadInput : Type 0 where
  pub uploader_id : ℕ
  pub name : ℕ
  pub content_hash : ℕ
  pub size_bytes : ℕ
  pub mime_type : ℕ
