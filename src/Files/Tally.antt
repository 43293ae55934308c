-- ===== src/Files/Tally.antt =====
-- Link counts that are right for given numbers of references, and what the statements on one inode's
-- row do to them.
use e_campus_server.Prelude.{
  ℕ, ◌+◌, ◌≡◌, ◌≢◌, refl, sym, ap, ◌∙◌, subst, ◌⊎◌, inl, inr, true, Option, none, some, List, ◌==◌,
  ==_iff, arith, Bool-cases, if◌then◌else◌, leb, is_set, affect, row_at, replace_row, affect-some,
  affect-row, row_at-key, row_at-replace_row_self, row_at-replace_row_ne, Distinct,
  replace_row-Distinct, ok, err,
}
use e_campus_server.Files.Data.{Error, InodeState, live, gc, is_live, Inode, inode_not_found}
use e_campus_server.Files.Postgres.{
  Tables, inode_key, hash_key, link, unlink, linked, unlinked, written_or, missed,
}

-- The state that goes with a number of references.
abbrev pub due : ℕ → InodeState
due n = if n == 0 then gc else live

abbrev pub TalliedRow : Option Inode → ℕ → Type 0
TalliedRow none n = n ≡ 0
TalliedRow (some i) n = (i.link_count ≡ n) × (i.state ≡ due n)

-- Ids and hashes are distinct, every link count is the number of references, an inode waits for the
-- sweep exactly when it has none, and whatever is referred to is there.
unfoldable pub Tallied : (ℕ → ℕ) → List Inode → Type 0
Tallied refs rows =
    Distinct inode_key rows
    × Distinct hash_key rows
    × ((id : ℕ) → TalliedRow (row_at inode_key id rows) (refs id))

-- One more reference to `id`.
abbrev pub extra : ℕ → (ℕ → ℕ) → ℕ → ℕ
extra id refs x = refs x + (if id == x then 1 else 0)

pub Tallied-refs :
    (refs refs' : ℕ → ℕ) (rows : List Inode)
    → ((id : ℕ) → refs' id ≡ refs id)
    → Tallied refs rows
    → Tallied refs' rows
unfolding Tallied
Tallied-refs refs refs' rows same (ids, hashes, fits) =
    (ids, hashes, λ id. subst (TalliedRow (row_at inode_key id rows)) (sym (same id)) (fits id))

-- One row is replaced, and only its references may change.
pub replaced-Tallied :
    (f : Inode → Inode) (id : ℕ) (rows : List Inode) (r : Inode) (refs refs' : ℕ → ℕ)
    → ((i : Inode) → (f i).id ≡ i.id)
    → ((i : Inode) → (f i).content_hash ≡ i.content_hash)
    → row_at inode_key id rows ≡ some r
    → ((x : ℕ) → id ≢ x → refs' x ≡ refs x)
    → TalliedRow (some (f r)) (refs' id)
    → Tallied refs rows
    → Tallied refs' (replace_row inode_key id f rows)
unfolding Tallied
replaced-Tallied f id rows r refs refs' key hash there others right (ids, hashes, fits) = (
  replace_row-Distinct inode_key inode_key id f key rows ids,
  replace_row-Distinct hash_key inode_key id f hash rows hashes,
  λ x. elim (Bool-cases (id == x)) [
    | inl hit ↦
        let is_x : id ≡ x = (==_iff id x).0 hit in
        subst (λ y. TalliedRow (row_at inode_key y (replace_row inode_key id f rows)) (refs' y))
          is_x
          (subst (λ o. TalliedRow o (refs' id))
            (sym (
              row_at-replace_row_self inode_key id f rows {r = r} there
                (key r ∙ row_at-key inode_key id rows {r = r} there)))
            right)
    | inr miss ↦
        let ne : id ≢ x = ground (arith, miss, (==_iff id x).1) in
        subst (λ o. TalliedRow o (refs' x))
          (sym (row_at-replace_row_ne inode_key id x f rows key ne))
          (subst (TalliedRow (row_at inode_key x rows)) (sym (others x ne)) (fits x))
  ],
)

pub extra_other : (id : ℕ) (refs : ℕ → ℕ) (x : ℕ) → id ≢ x → extra id refs x ≡ refs x
extra_other id refs x ne = ground (arith, ne, (==_iff id x).0)

pub extra_self : (id : ℕ) (refs : ℕ → ℕ) → extra id refs id ≡ refs id + 1
extra_self id refs = ground (arith, (==_iff id id).1)

pub row_of :
    (id : ℕ) (refs : ℕ → ℕ) (rows : List Inode) (r : Inode)
    → row_at inode_key id rows ≡ some r
    → Tallied refs rows
    → TalliedRow (some r) (refs id)
unfolding Tallied
row_of id refs rows r there (ids, hashes, fits) =
    subst (λ o. TalliedRow o (refs id)) there (fits id)

linked_right :
    (r : Inode) (n : ℕ)
    → is_live r.state ≡ true
    → TalliedRow (some r) n
    → TalliedRow (some (linked r)) (n + 1)
linked_right r n alive (count, state) = (ground (arith, count), ground (arith, alive, state))

unlinked_right :
    (r : Inode) (n : ℕ) → TalliedRow (some r) (n + 1) → TalliedRow (some (unlinked 1 r)) n
unlinked_right r n (count, state) = (ground (arith, count), ground (arith, count, state))

-- Link counts one reference more, or answers an error and changes nothing.
pub link-cases :
    (id : ℕ) (refs : ℕ → ℕ) (t : Tables)
    → Tallied refs t.inodes
    → ((rows : List Inode) × (link id t ≡ (ok tt, record t { inodes = rows }))
        × Tallied (extra id refs) rows)
      ⊎ ((e : Error) × (link id t ≡ (err e, t)))
unfolding link
link-cases id refs t tallied = go (affect inode_key id (λ i. is_live i.state) linked t.inodes) refl
  where
    go :
        (o : Option (Inode × List Inode))
        → affect inode_key id (λ i. is_live i.state) linked t.inodes ≡ o
        → ((rows : List Inode) × (written_or (missed (is_set (row_at inode_key id t.inodes))) t o
              ≡ (ok tt, record t { inodes = rows }))
            × Tallied (extra id refs) rows)
          ⊎ ((e : Error) × (written_or (missed (is_set (row_at inode_key id t.inodes))) t o
                ≡ (err e, t)))
    go none q = inr (_, refl)
    go (some (r', rows')) q =
        let (r, there, alive, is_r, is_rows) =
          affect-some inode_key id (λ i. is_live i.state) linked t.inodes {r' = r'} {rows' = rows'}
            q in
        inl (
          rows',
          refl,
          subst (Tallied (extra id refs)) (sym is_rows) (
              replaced-Tallied linked id t.inodes r refs (extra id refs) (λ i. refl) (λ i. refl)
                there (extra_other id refs)
                (subst (TalliedRow (some (linked r))) (sym (extra_self id refs))
                  (linked_right r (refs id) alive (row_of id refs t.inodes r there tallied)))
                tallied),
        )

-- Unlink of a counted reference counts one less.
pub unlink-cases :
    (id : ℕ) (refs : ℕ → ℕ) (t : Tables)
    → Tallied (extra id refs) t.inodes
    → (rows : List Inode) × (unlink id t ≡ (ok tt, record t { inodes = rows })) × Tallied refs rows
unfolding unlink Tallied
unlink-cases id refs t tallied = go (row_at inode_key id t.inodes) refl
  where
    go :
        (o : Option Inode)
        → row_at inode_key id t.inodes ≡ o
        → (rows : List Inode) × (unlink id t ≡ (ok tt, record t { inodes = rows }))
          × Tallied refs rows
    go none q =
        let (ids, hashes, fits) = tallied in
        let zero_refs : extra id refs id ≡ 0 =
          subst (λ o. TalliedRow o (extra id refs id)) q (fits id) in
        ground (arith, zero_refs, extra_self id refs)
    go (some r) q =
        let before : TalliedRow (some r) (refs id + 1) =
          subst (TalliedRow (some r)) (extra_self id refs)
            (row_of id (extra id refs) t.inodes r q tallied) in
        let counted : leb 1 r.link_count ≡ true = ground (arith, before.0) in
        let written : affect inode_key id (λ i. leb 1 i.link_count) (unlinked 1) t.inodes
            ≡ some (unlinked 1 r, replace_row inode_key id (unlinked 1) t.inodes) =
          rw counted at
            (affect-row inode_key id (λ i. leb 1 i.link_count) (unlinked 1) t.inodes r q) in
        (
          replace_row inode_key id (unlinked 1) t.inodes,
          ap (written_or inode_not_found t) written,
          replaced-Tallied (unlinked 1) id t.inodes r (extra id refs) refs (λ i. refl) (λ i. refl) q
              (λ x ne. sym (extra_other id refs x ne)) (unlinked_right r (refs id) before) tallied,
        )
