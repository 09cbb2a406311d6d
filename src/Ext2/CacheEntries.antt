-- ===== src/Ext2/CacheEntries.antt =====
-- kernel/src/fs/ext2.c: the search of the block cache.
use kronosos.Base.{
  ℕ, zero, suc, ◌+◌, ◌<◌, ◌≡◌, ◌∙◌, sym, true, ◌&&◌, some, ◌==◌, if_yes, if_no, Bool-cases, inl,
  inr, arith,
}
use mathlib.Core.Path.{subst}
use kronosos.Ext2.{CacheEntry, find_cached}

-- The search for a block ends at a valid entry of it.
pub find_cached-found :
    (cache : ℕ → CacheEntry) (block n i k : ℕ)
    → find_cached cache block n i ≡ some k
    → (k < i + n) × ((cache k).valid ≡ true) × ((cache k).block_no ≡ block)
unfolding find_cached
find_cached-found cache block zero i k e = cc
find_cached-found cache block (suc n) i k e =
    elim (Bool-cases ((cache i).valid && ((cache i).block_no == block))) [
      | inl hit ↦
          let same : some i ≡ some k = sym (if_yes _ _ hit) ∙ e in
          let at : i ≡ k = cc in
          subst
            (λ (m : ℕ). (m < i + suc n) × ((cache m).valid ≡ true) × ((cache m).block_no ≡ block))
            at (omega arith, ground arith, ground arith)
      | inr missed ↦
          let (l, v, b) = find_cached-found cache block n (i + 1) k (sym (if_no _ _ missed) ∙ e) in
          (omega arith, v, b)
    ]
