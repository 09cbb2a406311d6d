-- ===== src/Ext2/Directories/Entries.antt =====
-- kernel/src/fs/ext2.c: the search of a block for a name, against the layout of directories.
use kronosos.Base.{
  ℕ, zero, suc, ◌+◌, ◌^◌, ◌≤◌, ◌<◌, ◌≡◌, ◌≢◌, ◌∙◌, sym, not, ◌&&◌, Option, none, some, List, leb,
  ◌==◌, ==→eq, if_split, arith,
}
use mathlib.Core.Path.{subst}
use kronosos.Base.Bytes.{Bytes, read}
use kronosos.Ext2.Directories.{next_entry, find_entry, is_named}
use kronosos.Ext2.Directories.Layout.{
  inode_number, entry_length, Reached, here, after, Matches, read-inode_number, read-entry_length,
  next_entry-behind, is_named-HasName, HasName-is_named,
}

-- What the search from `p` on has found.
unfoldable pub FoundEntry : Bytes → ℕ → List ℕ → ℕ → Option ℕ → Type 0
unfolding Matches
FoundEntry bytes size name p none = (q : ℕ) → Reached bytes size p q → Matches bytes size name q → ⊥
FoundEntry bytes size name p (some ino) =
    (q : ℕ) × Reached bytes size p q × Matches bytes size name q × (inode_number bytes q ≡ ino)

module _ (bytes : Bytes) (size : ℕ) (name : List ℕ) where
  -- An entry behind which there is none is the only one met from there.
  no_match :
      {p q : ℕ}
      → (p < size → entry_length bytes p ≢ 0 → ⊥)
      → Reached bytes size p q
      → Matches bytes size name q
      → ⊥
  unfolding Matches
  no_match g (here p) m = g m.0 m.1
  no_match g (after p q l ne r) m = g l ne

  -- An entry that does not match is passed.
  passed :
      {p q : ℕ}
      → (Matches bytes size name p → ⊥)
      → FoundEntry bytes size name (p + entry_length bytes p) none
      → Reached bytes size p q
      → Matches bytes size name q
      → ⊥
  unfolding FoundEntry
  passed f rest (here p) m = f m
  passed f rest (after p q l ne r) m = rest q r m

  skip :
      (p : ℕ) (o : Option ℕ)
      → p < size
      → entry_length bytes p ≢ 0
      → (Matches bytes size name p → ⊥)
      → FoundEntry bytes size name (p + entry_length bytes p) o
      → FoundEntry bytes size name p o
  unfolding FoundEntry
  skip p none l ne f rest = λ q r m. passed f rest r m
  skip p (some ino) l ne f (q, r, m, e) = (q, after p q l ne r, m, e)

  -- In a block of at most 2^31 bytes, each below 2^8, and with a round for each byte from the first
  -- entry on: the search gives the inode number of an entry that is in use and whose name is the whole
  -- name, among the entries that are met when each begins where the one before it ends, up to the
  -- end of the block or an entry of length 0; when it gives none, no such entry is met.
  pub find_entry-FoundEntry :
      (n p : ℕ)
      → ((i : ℕ) → bytes i < 2 ^ 8)
      → size ≤ 2 ^ 31
      → size ≤ n + p
      → FoundEntry bytes size name p (find_entry n bytes size name p)
  unfolding find_entry FoundEntry Matches
  find_entry-FoundEntry zero p small h enough = λ q r m. no_match (λ l. absurd (omega arith)) r m
  find_entry-FoundEntry (suc n) p small h enough =
      let P : Option ℕ → Type 0 = FoundEntry bytes size name p in
      let length_read = read-entry_length bytes p in
      let inode_read = read-inode_number bytes p in
      if_split P (leb size p) none _ (λ out q r m. no_match (λ l. absurd (ground arith)) r m)
        (λ inside.
          if_split P (read bytes (p + 4) 2 == 0) none _
            (λ last q r m. no_match (λ l ne. absurd (ne (sym length_read ∙ ==→eq last))) r m)
            (λ more.
              let l : p < size = ground arith in
              let ne : entry_length bytes p ≢ 0 = ground arith in
              let behind = next_entry-behind bytes size p small h l in
              let rest = find_entry n bytes size name (next_entry bytes p) in
              if_split P (not (read bytes p 4 == 0) && is_named bytes p name)
                (some (read bytes p 4)) rest
                (λ hit. (
                  p,
                  here p,
                  (
                    l,
                    ne,
                    (λ z. absurd (ground arith)),
                    is_named-HasName bytes p name (ground arith),
                  ),
                  sym inode_read,
                ))
                (λ missed.
                  skip p rest l ne
                    (λ m.
                      let (_, _, used, named) = m in
                      let n = HasName-is_named bytes p name named in absurd (ground arith))
                    (subst (λ (q : ℕ). FoundEntry bytes size name q rest) behind
                      (find_entry-FoundEntry n (next_entry bytes p) small h (omega arith))))))
