-- ===== src/Pmm.antt =====
-- kernel/src/memory/pmm.c: the physical page allocator, a bitmap over one region of memory.
-- A function that changes the allocator's static variables returns the new state; a `void *` is
-- its address, and 0 is NULL. Log output is left out, but for the numbers of `print_stats`.
pub mod Bitmap
pub mod Inv
pub mod Search
pub mod Alloc
pub mod Free
pub mod Count
pub mod RoundTrip
pub mod Boot
pub mod Sample
mod Tests
use kronosos.Base.{
  ℕ, zero, suc, ◌+◌, ◌-◌, ◌*◌, ◌/◌, ◌%◌, ◌^◌, Bool, true, false, not, ◌&&◌, ◌||◌, Option, none,
  some, List, bit_and, bit_or, ltb, leb, ◌==◌, if◌then◌else◌, get_or, set, add64, mul64,
}

-- `pmm_config_t`
pub record Config : Type 0 where
  pub page_size : ℕ
  pub kernel_start : ℕ
  pub kernel_end : ℕ
  pub max_pages : ℕ
  pub total_memory : ℕ

-- The static variables. `page_bitmap` is NULL until `init` points it at `static_bitmap`: `mapped`
-- tells whether it has been set.
pub record Pmm : Type 0 where
  pub config : Config
  pub mapped : Bool
  pub static_bitmap : List ℕ
  pub total_allocations : ℕ
  pub failed_allocations : ℕ

abbrev pub static_bitmap_size : ℕ
static_bitmap_size = 8192

abbrev pub null : ℕ
null = 0

-- `1 << (i % 8)`
pub bit_mask : ℕ → ℕ
bit_mask i = 2 ^ (i % 8)

-- `page_bitmap[i / 8] & bit_mask`, as a truth value. A read past the array gives 0, which
-- `max_pages ≤ 8 * 8192` rules out.
pub page_used : List ℕ → ℕ → Bool
unfolding bit_mask
page_used bitmap i = not (bit_and (get_or bitmap (i / 8) 0) (bit_mask i) == 0)

-- `page_bitmap[i / 8] |= bit_mask`
pub mark_used : List ℕ → ℕ → List ℕ
unfolding bit_mask
mark_used bitmap i = set bitmap (i / 8) (bit_or (get_or bitmap (i / 8) 0) (bit_mask i))

-- `page_bitmap[i / 8] &= ~bit_mask`, the complement within the byte
pub mark_free : List ℕ → ℕ → List ℕ
unfolding bit_mask
mark_free bitmap i = set bitmap (i / 8) (bit_and (get_or bitmap (i / 8) 0) (2 ^ 8 - 1 - bit_mask i))

-- `n` rounds of the search for a free page, from page `i` on
pub find_free : List ℕ → ℕ → ℕ → Option ℕ
find_free bitmap zero i = none
find_free bitmap (suc n) i =
    let rest = find_free bitmap n (i + 1) in if page_used bitmap i then rest else some i

-- the address of page `i`
pub page_address : Config → ℕ → ℕ
page_address c i = add64 c.kernel_start (mul64 i c.page_size)

-- The end of both allocators, on the outcome of their search: the statistics, the address, and
-- the bitmap in which the pages found are marked.
pub alloc_result : Pmm → (ℕ → List ℕ) → Option ℕ → ℕ × Pmm
unfolding page_address
alloc_result s marked none = (null, record s { failed_allocations = add64 s.failed_allocations 1 })
alloc_result s marked (some k) = (
  page_address s.config k,
  record s { static_bitmap = marked k; total_allocations = add64 s.total_allocations 1 },
)

pub alloc_page : Pmm → ℕ × Pmm
alloc_page s =
    if not s.mapped
    then (null, s)
    else alloc_result s (mark_used s.static_bitmap) (find_free s.static_bitmap s.config.max_pages 0)

-- `n` rounds of the search for `count` free pages in a row, from page `i` on, behind `found` free
-- pages from page `start` on
pub find_run : List ℕ → ℕ → ℕ → ℕ → ℕ → ℕ → Option ℕ
find_run bitmap count zero i found start = none
find_run bitmap count (suc n) i found start =
    let reset = find_run bitmap count n (i + 1) 0 start in
    let start' = if found == 0 then i else start in
    let more = find_run bitmap count n (i + 1) (found + 1) start' in
    if page_used bitmap i then reset else if (found + 1) == count then some start' else more

-- marks `n` pages from page `i` on
pub mark_run : List ℕ → ℕ → ℕ → List ℕ
mark_run bitmap zero i = bitmap
mark_run bitmap (suc n) i = mark_run (mark_used bitmap i) n (i + 1)

pub alloc_pages : Pmm → ℕ → ℕ × Pmm
alloc_pages s count =
    if not s.mapped || (count == 0)
    then (null, s)
    else if count == 1
    then alloc_page s
    else alloc_result s (mark_run s.static_bitmap count)
        (find_run s.static_bitmap count s.config.max_pages 0 0 0)

-- the guard of the functions that take an address
pub out_of_range : Config → ℕ → Bool
out_of_range c page =
    ltb page c.kernel_start || leb c.kernel_end page || not (page % c.page_size == 0)

-- the index of the page at an address that is not below `kernel_start`
pub page_index : Config → ℕ → ℕ
page_index c page = (page - c.kernel_start) / c.page_size

pub free_page : Pmm → ℕ → Pmm
unfolding out_of_range page_index
free_page s page =
    if not s.mapped
    then s
    else if out_of_range s.config page
    then s
    else let i = page_index s.config page in
      if leb s.config.max_pages i
      then s
      else if not (page_used s.static_bitmap i)
      then s
      else record s { static_bitmap = mark_free s.static_bitmap i }

-- `n` rounds of the loop of `free_pages`, from round `i` on
pub free_loop : Pmm → ℕ → ℕ → ℕ → Pmm
free_loop s page zero i = s
free_loop s page (suc n) i =
    free_loop (free_page s (add64 page (mul64 i s.config.page_size))) page n (i + 1)

pub free_pages : Pmm → ℕ → ℕ → Pmm
unfolding out_of_range
free_pages s page count =
    if not s.mapped || (count == 0)
    then s
    else if count == 1
    then free_page s page
    else if out_of_range s.config page
    then s
    else let end_page = add64 page (mul64 count s.config.page_size) in
      let count' =
        if ltb s.config.kernel_end end_page
        then (s.config.kernel_end - page) / s.config.page_size
        else count in
      free_loop s page count' 0

pub is_page_free : Pmm → ℕ → Bool
unfolding out_of_range page_index
is_page_free s page =
    if not s.mapped
    then false
    else if out_of_range s.config page
    then false
    else let i = page_index s.config page in
      if leb s.config.max_pages i then false else not (page_used s.static_bitmap i)

-- `n` rounds of the counting loops, from page `i` on
pub count_free : List ℕ → ℕ → ℕ → ℕ → ℕ
count_free bitmap zero i acc = acc
count_free bitmap (suc n) i acc =
    count_free bitmap n (i + 1) (if page_used bitmap i then acc else add64 acc 1)

pub count_used : List ℕ → ℕ → ℕ → ℕ → ℕ
count_used bitmap zero i acc = acc
count_used bitmap (suc n) i acc =
    count_used bitmap n (i + 1) (if page_used bitmap i then add64 acc 1 else acc)

pub get_free_memory : Pmm → ℕ
get_free_memory s =
    if not s.mapped
    then 0
    else mul64 (count_free s.static_bitmap s.config.max_pages 0 0) s.config.page_size

pub get_used_memory : Pmm → ℕ
get_used_memory s =
    if not s.mapped
    then 0
    else mul64 (count_used s.static_bitmap s.config.max_pages 0 0) s.config.page_size
