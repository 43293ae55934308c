-- ===== src/Files/Race.antt =====
-- An upload between the two steps by which SweepGC of internal/files/inode.go reclaims an inode: the
-- row goes under the advisory lock, the bytes go after it.
use e_campus_server.Prelude.{
  ℕ, ◌≡◌, ◌≢◌, refl, sym, ◌∙◌, subst, Bool, true, false, none, Result, ok, err, Method, lift, Keeps,
}
use e_campus_server.Files.Data.{Error, Inode, Upload, Key, at_hash, object_key}
use e_campus_server.Files.Postgres.{reclaim}
use e_campus_server.Files.Service.{
  ObjectStore, World, on_tables, upload, remove_objects, after_reclaim,
}
use e_campus_server.Files.Counted.{Counted, reclaim-Counted}
use e_campus_server.Files.Bytes.{BytesAre, upload-BytesAre}

-- One round of the sweep's loop, as `sweep_one`, with another request in between: what that request
-- was answered, and the world in the end.
unfoldable pub sweep_one_during :
    {B A : Type 0}
    → ObjectStore B
    → Inode
    → Method (World B) Error A
    → World B
    → Result Error A × World B
sweep_one_during store inode request w =
    let (deleted, w1) = on_tables (reclaim inode) w in
    let (answer, w2) = request w1 in (answer, (after_reclaim store inode deleted w2).1)

module _ {B : Type 0} (store : ObjectStore B) (has : Key → B → Bool)
    (copied : (src dst : Key) (b : B)
      → (store.server_copy src dst b).0 ≡ ok tt
      → has dst (store.server_copy src dst b).1 ≡ true)
    (kept : (k other : Key) (b : B)
      → k ≢ other
      → has other b ≡ true
      → has other (store.remove k b).1 ≡ true)
    (removed : (k : Key) (b : B) → has k (store.remove k b).1 ≡ false)
    (apart : (hash : ℕ) (k : Key) (b : B) → has k (store.remove_derived hash b).1 ≡ has k b) where
  lost :
      (inode : Inode) (r : Result Error Upload) (w : World B)
      → object_key inode ≡ at_hash inode.content_hash
      → BytesAre store has true inode.content_hash (r, w)
      → BytesAre store has false inode.content_hash (r, (remove_objects store inode w).1)
  unfolding remove_objects
  lost inode (err e) w key bytes = tt
  lost inode (ok u) w key (i, row, address, _) = (
    i,
    row,
    address,
    apart inode.content_hash (at_hash inode.content_hash)
          (store.remove (object_key inode) w.bytes).1
        ∙ subst (λ k. has k (store.remove (object_key inode) w.bytes).1 ≡ false) key
            (removed (object_key inode) w.bytes),
  )

  -- Over an object store whose copies arrive, whose removals remove their key and leave the other keys
  -- alone: when the sweep has reclaimed an inode at its content's address, and the same content is
  -- uploaded before the sweep removes the bytes, then a receipt that the upload answers has an inode
  -- whose row points at bytes that are gone.
  pub sweep_one_during-upload :
      (limits : Result Error ℕ) (tmp uploader name name_length size mime : ℕ) (inode : Inode)
      (w : World B)
      → Counted w.tables
      → inode.legacy_key ≡ none
      → (reclaim inode w.tables).0 ≡ ok true
      → BytesAre store has false inode.content_hash (
          sweep_one_during store inode
            (upload store (lift limits) tmp uploader name name_length size mime inode.content_hash)
            w)
  unfolding sweep_one_during Keeps object_key remove_objects
  sweep_one_during-upload limits tmp uploader name name_length size mime inode w counted plain
        deleted =
      let w1 : World B = record w { tables = (reclaim inode w.tables).1 } in
      let (answer, w2) =
        upload store (lift limits) tmp uploader name name_length size mime inode.content_hash w1 in
      subst
        (λ d.
          BytesAre store has false inode.content_hash (answer, (after_reclaim store inode d w2).1))
        (sym deleted)
        (lost inode answer w2 (rw plain refl) (
          upload-BytesAre store has copied kept limits tmp uploader name name_length size mime
            inode.content_hash w1 (reclaim-Counted inode w.tables counted)))
