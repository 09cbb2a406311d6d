-- ===== src/Vmm/Areas/Allocation.antt =====
-- `vmm_allocate`, `vmm_map_physical`: which area they take, and that a failure takes none.
use kronosos.Base.{
  ℕ, suc, ◌/◌, ◌<◌, ◌≡◌, Bool, true, false, not, ◌&&◌, Option, none, some, List, ◌∷◌, leb, add64,
}
use kronosos.Vmm.{Vmm}
use kronosos.Vmm.Areas.{Area, Heap, set_used, areas_of}

-- An area that is free and has at least a size.
abbrev fits : ℕ → Area → Bool
fits size a = not a.is_used && leb size a.size

-- Area `i` is `a`.
pub data At : List Area → ℕ → Area → Type 0 where
  first : {a : Area} {areas : List Area} → At (a ∷ areas) 0 a
  later : {a b : Area} {areas : List Area} {i : ℕ} → At areas i b → At (a ∷ areas) (suc i) b

-- A search gives the first area that fits, if there is one.
pub data FirstFit (size : ℕ) : List Area → Option (ℕ × Area) → Type 0 where
  no_area :
      {areas : List Area}
      → ((j : ℕ) (b : Area) → At areas j b → fits size b ≡ false)
      → FirstFit size areas none
  area :
      {areas : List Area} (i : ℕ) (a : Area)
      → At areas i a
      → fits size a ≡ true
      → ((j : ℕ) (b : Area) → j < i → At areas j b → fits size b ≡ false)
      → FirstFit size areas (some (i, a))

-- What an allocation has done to the areas: nothing, or it has taken the first area that fits in
-- the table that the flags choose, and returns its base.
pub data Allocation (h : Heap) (user : Bool) (size : ℕ) : ℕ × Heap → Type 0 where
  refused :
      {t : Heap}
      → t.user_areas ≡ h.user_areas
      → t.kernel_areas ≡ h.kernel_areas
      → t.pages_allocated ≡ h.pages_allocated
      → Allocation h user size (0, t)
  taken :
      (i : ℕ) (a : Area) {t : Heap}
      → FirstFit size (areas_of h user) (some (i, a))
      → areas_of t user ≡ set_used (areas_of h user) i true
      → areas_of t (not user) ≡ areas_of h (not user)
      → t.pages_allocated ≡ add64 h.pages_allocated (size / 4096)
      → Allocation h user size (a.base, t)
