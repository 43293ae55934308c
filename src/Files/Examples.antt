-- ===== src/Files/Examples.antt =====
-- Tests and witnesses: an object store as the list of its keys.
use e_campus_server.Prelude.{
  ◌≡◌, ◌≢◌, refl, sym, ap, ◌∙◌, inl, inr, Bool, true, false, not, none, List, [], ◌∷◌, ◌==◌, ==_iff,
  arith, Bool-cases, any, keep, if◌then◌else◌, ok, err, lift, row_at, affect, replace_row, Distinct,
}
use e_campus_server.Files.Data.{
  Error, Inode, Key, at_hash, legacy, temp, live, gc, valid_file_name, can_store, temp_key,
  object_key_for, file_gone,
}
use e_campus_server.Files.Postgres.{
  Tables, link, unlink, reclaim, create_upload, expire_before, gc_candidates, get_content,
  references, inode_key,
}
use e_campus_server.Files.Service.{
  ObjectStore, World, upload, resolve_upload, expire_uploads, sweep_all, sweep_gc, janitor_tick,
}
use e_campus_server.Files.Lessons.{
  of_files, link_all, link_rest, unlink_each, unlink_logged, attach, create_attachment, get_lesson,
  find_lesson,
}
use e_campus_server.Files.Tally.{Tallied, TalliedRow}
use e_campus_server.Files.Counted.{Counted}
use e_campus_server.Files.Linking.{AllOrNone, link_all-AllOrNone}
use e_campus_server.Files.Serving.{
  Request, uploads, attaches, ticks, serve, serve_all, no_files, no_files-Counted,
  serve_all-TalliedRow,
}
use e_campus_server.Files.Bytes.{BytesAre, upload-BytesAre}
use e_campus_server.Files.Race.{sweep_one_during, sweep_one_during-upload}

abbrev same_key : Key → Key → Bool
same_key (at_hash a) (at_hash b) = a == b
same_key (legacy a) (legacy b) = a == b
same_key (temp a) (temp b) = a == b
same_key _ _ = false

abbrev has : Key → List Key → Bool
has k b = any (same_key k) b

-- A copy of what is missing fails.
abbrev shelf : ObjectStore (List Key)
shelf = record {
  put = λ k hash b. (ok tt, k ∷ b);
  server_copy = λ src dst b. if has src b then (ok tt, dst ∷ b) else (err (Error.failure 404), b);
  presign = λ k name mime b. (ok 0, b);
  remove = λ k b. (ok tt, keep (λ x. not (same_key k x)) b);
  remove_derived = λ hash b. (ok tt, b);
}

same_key_self : (k : Key) → same_key k k ≡ true
same_key_self (at_hash a) = (==_iff a a).1 refl
same_key_self (legacy a) = (==_iff a a).1 refl
same_key_self (temp a) = (==_iff a a).1 refl

same_key_eq : (k l : Key) → same_key k l ≡ true → k ≡ l
same_key_eq (at_hash a) (at_hash b) h = ap at_hash ((==_iff a b).0 h)
same_key_eq (legacy a) (legacy b) h = ap legacy ((==_iff a b).0 h)
same_key_eq (temp a) (temp b) h = ap temp ((==_iff a b).0 h)
same_key_eq (at_hash a) (legacy b) h = cc
same_key_eq (at_hash a) (temp b) h = cc
same_key_eq (legacy a) (at_hash b) h = cc
same_key_eq (legacy a) (temp b) h = cc
same_key_eq (temp a) (at_hash b) h = cc
same_key_eq (temp a) (legacy b) h = cc

shelf_copied :
    (src dst : Key) (b : List Key)
    → (shelf.server_copy src dst b).0 ≡ ok tt
    → has dst (shelf.server_copy src dst b).1 ≡ true
shelf_copied src dst b h = elim (Bool-cases (has src b)) [
  | inl there ↦ rw (there, same_key_self dst) refl
  | inr missing ↦ let e = rw missing at h in cc
]

shelf_kept :
    (k other : Key) (b : List Key)
    → k ≢ other
    → has other b ≡ true
    → has other (shelf.remove k b).1 ≡ true
shelf_kept k other [] ne h = cc
shelf_kept k other (x ∷ b) ne h = elim (Bool-cases (same_key k x)) [
  | inr miss ↦ ground (arith, miss, shelf_kept k other b ne)
  | inl hit ↦ elim (Bool-cases (same_key other x)) [
    | inl same ↦
        let e = ne (same_key_eq k x hit ∙ sym (same_key_eq other x same)) in ground (arith, e)
    | inr differ ↦ ground (arith, hit, differ, shelf_kept k other b ne)
  ]
]

shelf_removed : (k : Key) (b : List Key) → has k (shelf.remove k b).1 ≡ false
shelf_removed k [] = refl
shelf_removed k (x ∷ b) = elim (Bool-cases (same_key k x)) [
  | inl hit ↦ ground (arith, hit, shelf_removed k b)
  | inr miss ↦ ground (arith, miss, shelf_removed k b)
]

abbrev empty_tables : Tables
empty_tables = no_files (record { id = 5; offering_id = 7 } ∷ []) 20 30 0

abbrev new_world : World (List Key)
new_world = record { tables = empty_tables; bytes = [] }

-- Ada (1) uploads content 900 twice, attaches it, drops it, and the janitor comes after two days.
abbrev term : List Request
term =
    uploads (ok 1000) 60 1 40 8 100 2 900
    ∷ uploads (ok 1000) 61 1 41 8 100 2 900
    ∷ attaches 7 5 1 30 none 50
    ∷ ticks 200000
    ∷ []

attached_after_term :
    (serve_all shelf term new_world).tables.inodes
    ≡ record {
      id = 20;
      content_hash = 900;
      size_bytes = 100;
      mime_type = 2;
      link_count = 1;
      state = live;
      legacy_key = none;
      created_at = 0;
    }
      ∷ []
unfolding serve_all serve upload valid_file_name can_store temp_key object_key_for create_upload
    attach get_lesson find_lesson resolve_upload get_content link create_attachment janitor_tick
    expire_uploads expire_before sweep_gc gc_candidates sweep_all row_at affect replace_row
attached_after_term = refl

serve_all-TalliedRow_example :
    let t = (serve_all shelf term new_world).tables in
    TalliedRow (row_at inode_key 20 t.inodes) (references 20 t)
serve_all-TalliedRow_example =
    serve_all-TalliedRow shelf term (record { id = 5; offering_id = 7 } ∷ []) 20 30 0 [] 20

-- One inode in use by a receipt, and one that waits for the sweep.
abbrev used : Inode
used = record {
  id = 22;
  content_hash = 800;
  size_bytes = 10;
  mime_type = 2;
  link_count = 1;
  state = live;
  legacy_key = none;
  created_at = 0;
}

abbrev doomed : Inode
doomed = record {
  id = 20;
  content_hash = 900;
  size_bytes = 100;
  mime_type = 2;
  link_count = 0;
  state = gc;
  legacy_key = none;
  created_at = 0;
}

abbrev mixed : Tables
mixed = record empty_tables {
  inodes = used ∷ doomed ∷ [];
  uploads = record { id = 29; inode_id = 22; uploader_id = 1; name = 40; created_at = 0 } ∷ [];
  fresh_inode = 23;
}

mixed-Counted : Counted mixed
unfolding Counted Tallied Distinct row_at
mixed-Counted = (
  (refl, (refl, tt)),
  (refl, (refl, tt)),
  λ id. elim (Bool-cases (22 == id)) [
    | inl first ↦ rw first (ground (arith, first), ground (arith, first))
    | inr other ↦ elim (Bool-cases (20 == id)) [
      | inl second ↦ rw (other, second) (refl, refl)
      | inr neither ↦ rw (other, neither) refl
    ]
  ],
)

-- The second file is gone, so the first is not counted either.
link_all_gone : link_all (22 ∷ 20 ∷ []) mixed ≡ (err (of_files file_gone), mixed)
unfolding link_all link_rest link unlink unlink_each unlink_logged row_at affect replace_row
link_all_gone = refl

link_all-AllOrNone_example :
    AllOrNone (λ x. references x mixed) (22 ∷ 20 ∷ []) mixed (link_all (22 ∷ 20 ∷ []) mixed)
unfolding Counted
link_all-AllOrNone_example =
    link_all-AllOrNone (22 ∷ 20 ∷ []) (λ x. references x mixed) mixed mixed-Counted

upload-BytesAre_example :
    BytesAre shelf has true 900 (upload shelf (lift (ok 1000)) 60 1 40 8 100 2 900 new_world)
upload-BytesAre_example =
    upload-BytesAre shelf has shelf_copied shelf_kept (ok 1000) 60 1 40 8 100 2 900 new_world
      (no_files-Counted shelf (record { id = 5; offering_id = 7 } ∷ []) 20 30 0)

abbrev mixed_world : World (List Key)
mixed_world = record { tables = mixed; bytes = at_hash 800 ∷ at_hash 900 ∷ [] }

doomed_goes : (reclaim doomed mixed).0 ≡ ok true
unfolding reclaim row_at
doomed_goes = refl

lost_receipt :
    (sweep_one_during shelf doomed
      (upload shelf (lift (ok 1000)) 60 1 40 8 100 2 900)
      mixed_world).0
    ≡ ok (record { id = 30; inode_id = 23; uploader_id = 1; name = 40; created_at = 0 })
unfolding sweep_one_during reclaim upload valid_file_name can_store temp_key object_key_for
    create_upload row_at affect
lost_receipt = refl

sweep_one_during-upload_example :
    BytesAre shelf has false 900 (
      sweep_one_during shelf doomed (upload shelf (lift (ok 1000)) 60 1 40 8 100 2 900) mixed_world)
sweep_one_during-upload_example =
    sweep_one_during-upload shelf has shelf_copied shelf_kept shelf_removed (λ hash k b. refl)
      (ok 1000) 60 1 40 8 100 2 doomed mixed_world mixed-Counted refl doomed_goes
