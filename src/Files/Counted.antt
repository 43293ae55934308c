-- ===== src/Files/Counted.antt =====
-- The claim, the reclaim and the expiry keep every link count the number of references.
use e_campus_server.Prelude.{
  ℕ, ◌+◌, ◌≡◌, refl, sym, subst, inl, inr, true, false, not, Option, none, some, List, [], ◌∷◌, any,
  update_row, row_at-update_where, update_where-Distinct, row_at-key, ◌==◌, ==_iff, arith,
  Bool-cases, is_set, if◌then◌else◌, affect, row_at, replace_row, affect-some, affect-row,
  Option-cases, keep, row_at-key_of, replace_row-key_of, keep-Distinct, row_at-keep_key,
  row_at-keep_gone, Distinct, Keeps,
}
use e_campus_server.Files.Data.{Inode, Upload, UploadInput, live}
use e_campus_server.Files.Postgres.{
  Tables, inode_key, hash_key, references, reclaim, deletable, create_upload, claim, claimed_again,
  new_inode, uploads_of, expired, expired_of, expire_before, unlinked, overdrawn, affected_by,
}
use e_campus_server.Files.Tally.{
  TalliedRow, Tallied, Tallied-refs, extra, replaced-Tallied, row_of, extra_self, extra_other,
}

-- The references are the receipts and the rows of the other contexts.
unfoldable pub Counted : Tables → Type 0
Counted t = Tallied (λ id. references id t) t.inodes

claimed_right :
    (r : Inode) (n : ℕ) → TalliedRow (some r) n → TalliedRow (some (claimed_again r)) (n + 1)
claimed_right r n (count, state) = (ground (arith, count), ground arith)

-- A dedup hit, of which a hash finds the row.
hit-Tallied :
    (hash : ℕ) (refs : ℕ → ℕ) (rows : List Inode) (r : Inode)
    → row_at hash_key hash rows ≡ some r
    → Tallied refs rows
    → Tallied (extra r.id refs) (replace_row hash_key hash claimed_again rows)
unfolding Tallied
hit-Tallied hash refs rows r there tallied =
    let (ids, hashes, fits) = tallied in
    let by_id : row_at inode_key r.id rows ≡ some r =
      row_at-key_of inode_key hash_key hash rows r ids there in
    subst (Tallied (extra r.id refs))
      (sym (replace_row-key_of inode_key hash_key hash claimed_again rows r ids there))
      (replaced-Tallied claimed_again r.id rows r refs (extra r.id refs) (λ i. refl) (λ i. refl)
        by_id (extra_other r.id refs)
        (subst (TalliedRow (some (claimed_again r))) (sym (extra_self r.id refs))
          (claimed_right r (refs r.id) (row_of r.id refs rows r by_id tallied)))
        tallied)

-- A fresh row, whose id and hash no other row has.
fresh-Tallied :
    (i : Inode) (refs : ℕ → ℕ) (rows : List Inode)
    → row_at inode_key i.id rows ≡ none
    → row_at hash_key i.content_hash rows ≡ none
    → i.link_count ≡ 1
    → i.state ≡ live
    → Tallied refs rows
    → Tallied (extra i.id refs) (i ∷ rows)
unfolding Tallied Distinct row_at
fresh-Tallied i refs rows no_id no_hash one alive (ids, hashes, fits) = (
  (no_id, ids),
  (no_hash, hashes),
  λ x. elim (Bool-cases (i.id == x)) [
    | inl hit ↦
        let none_yet : refs x ≡ 0 =
          subst (λ y. refs y ≡ 0) ((==_iff i.id x).0 hit)
            (subst (λ o. TalliedRow o (refs i.id)) no_id (fits i.id)) in
        rw (hit, none_yet) (one, alive)
    | inr miss ↦ rw miss (subst (TalliedRow (row_at inode_key x rows)) (omega arith) (fits x))
  ],
)

gone-Tallied :
    (id : ℕ) (refs : ℕ → ℕ) (rows : List Inode)
    → refs id ≡ 0
    → Tallied refs rows
    → Tallied refs (keep (λ i. not (i.id == id)) rows)
unfolding Tallied
gone-Tallied id refs rows unused (ids, hashes, fits) = (
  keep-Distinct inode_key (λ i. not (i.id == id)) rows ids,
  keep-Distinct hash_key (λ i. not (i.id == id)) rows hashes,
  λ x. elim (Bool-cases (x == id)) [
    | inl hit ↦
        subst (λ o. TalliedRow o (refs x))
          (sym
            (row_at-keep_gone inode_key (λ i. not (i.id == id)) x rows (λ i e. rw (e, hit) refl)))
          (subst (λ y. refs y ≡ 0) (sym ((==_iff x id).0 hit)) unused)
    | inr miss ↦
        subst (λ o. TalliedRow o (refs x))
          (sym
            (row_at-keep_key inode_key (λ i. not (i.id == id)) x rows (λ i e. rw (e, miss) refl)))
          (fits x)
  ],
)

no_row : (o : Option Inode) → is_set o ≡ false → o ≡ none
no_row none h = refl
no_row (some i) h = cc

unclaimed :
    (hash : ℕ) (rows : List Inode)
    → affect hash_key hash (λ i. true) claimed_again rows ≡ none
    → row_at hash_key hash rows ≡ none
unclaimed hash rows q = elim (Option-cases (row_at hash_key hash rows)) [
  | inl gone ↦ gone
  | inr (r, there) ↦ ground (arith, affect-row hash_key hash (λ i. true) claimed_again rows r there)
]

pub create_upload-Counted : (input : UploadInput) → Keeps Counted (create_upload input)
unfolding Keeps Counted create_upload
create_upload-Counted input t counted =
    go (affect hash_key input.content_hash (λ i. true) claimed_again t.inodes) refl
  where
    go :
        (o : Option (Inode × List Inode))
        → affect hash_key input.content_hash (λ i. true) claimed_again t.inodes ≡ o
        → Counted (claim input t o).1
    go (some (i, rows)) q =
        let (r, there, _, is_i, is_rows) =
          affect-some hash_key input.content_hash (λ i. true) claimed_again t.inodes {r' = i}
            {rows' = rows} q in
        Tallied-refs (extra r.id (λ x. references x t)) _ rows (λ x. rw is_i (omega arith))
          (subst (Tallied (extra r.id (λ x. references x t))) (sym is_rows)
            (hit-Tallied input.content_hash _ t.inodes r there counted))
    go none q = elim (Bool-cases (is_set (row_at inode_key t.fresh_inode t.inodes))) [
      | inl taken ↦ rw taken counted
      | inr free ↦ rw free (
          Tallied-refs (extra t.fresh_inode (λ x. references x t)) _ (new_inode input t ∷ t.inodes)
            (λ x. omega arith)
            (fresh-Tallied (new_inode input t) _ t.inodes (no_row _ free)
              (unclaimed input.content_hash t.inodes q) refl refl counted))
    ]

-- A candidate is deleted only when nothing refers to it; the foreign keys never veto.
pub reclaim-Counted : (candidate : Inode) → Keeps Counted (reclaim candidate)
unfolding Keeps Counted reclaim
reclaim-Counted candidate t counted = go (row_at inode_key candidate.id t.inodes) refl
  where
    go :
        (o : Option Inode)
        → row_at inode_key candidate.id t.inodes ≡ o
        → Counted (reclaim candidate t).1
    go none q = rw q counted
    go (some r) q = elim (Bool-cases (deletable (some r))) [
      | inr kept ↦ rw (q, kept) counted
      | inl idle ↦
          let (count, _) = row_of candidate.id _ t.inodes r q counted in
          let unused : (references candidate.id t == 0) ≡ true = ground (arith, idle, count) in
          rw (q, idle, unused)
            (gone-Tallied candidate.id _ t.inodes (ground (arith, unused)) counted)
    ]

-- The receipts before and after the expired ones are gone.
uploads_split :
    (cutoff id : ℕ) (uploads : List Upload)
    → uploads_of id uploads
      ≡ expired_of cutoff id uploads + uploads_of id (keep (λ u. not (expired cutoff u)) uploads)
uploads_split cutoff id [] = refl
uploads_split cutoff id (u ∷ uploads) = elim (Bool-cases (expired cutoff u)) [
  | inl old ↦ ground (arith, old, uploads_split cutoff id uploads)
  | inr young ↦ ground (arith, young, uploads_split cutoff id uploads)
]

expired_right :
    (r : Inode) (gone left : ℕ)
    → TalliedRow (some r) (gone + left)
    → TalliedRow (some (if not (gone == 0) then unlinked gone r else r)) left
expired_right r gone left (count, state) = elim (Bool-cases (gone == 0)) [
  | inl same ↦ rw same (ground (arith, same, count), ground (arith, same, state))
  | inr fewer ↦ rw fewer (ground (arith, count), ground (arith, count, fewer, state))
]

row_after :
    (cutoff x : ℕ) (t : Tables) (o : Option Inode)
    → row_at inode_key x t.inodes ≡ o
    → TalliedRow o (references x t)
    → TalliedRow
        (update_row inode_key
          (affected_by cutoff t.uploads)
          (λ i. unlinked (expired_of cutoff i.id t.uploads) i)
          o)
        (references x (record t { uploads = keep (λ u. not (expired cutoff u)) t.uploads }))
row_after cutoff x t none q fits = omega (arith, fits, uploads_split cutoff x t.uploads)
row_after cutoff x t (some r) q fits =
    let is_x : r.id ≡ x = row_at-key inode_key x t.inodes {r = r} q in
    let t' : Tables = record t { uploads = keep (λ u. not (expired cutoff u)) t.uploads } in
    let before : TalliedRow (some r) (references r.id t) =
      subst (λ y. TalliedRow (some r) (references y t)) (sym is_x) fits in
    subst
      (λ y.
        TalliedRow
          (update_row inode_key (affected_by cutoff t.uploads)
            (λ i. unlinked (expired_of cutoff i.id t.uploads) i) (some r))
          (references y t'))
      is_x
      (expired_right r (expired_of cutoff r.id t.uploads) (references r.id t')
        (subst (TalliedRow (some r)) (omega (arith, uploads_split cutoff r.id t.uploads)) before))

pub expire_before-Counted : (cutoff : ℕ) → Keeps Counted (expire_before cutoff)
unfolding Keeps Counted Tallied expire_before
expire_before-Counted cutoff t counted =
    elim (Bool-cases (any (overdrawn cutoff t.uploads) t.inodes)) [
      | inl over ↦ rw over counted
      | inr fine ↦
          let (ids, hashes, fits) = counted in
          let drop : Inode → Inode = λ i. unlinked (expired_of cutoff i.id t.uploads) i in
          rw fine (
            update_where-Distinct inode_key (affected_by cutoff t.uploads) drop (λ r. refl) t.inodes
                ids,
            update_where-Distinct hash_key (affected_by cutoff t.uploads) drop (λ r. refl) t.inodes
                hashes,
            λ x.
                rw
                  (row_at-update_where inode_key (affected_by cutoff t.uploads) drop (λ r. refl) x
                    t.inodes)
                  (row_after cutoff x t (row_at inode_key x t.inodes) refl (fits x)),
          )
    ]
