-- ===== src/Strings.antt =====
-- kernel/src/lib/string.c over memory as a function from addresses to bytes. An object does not
-- wrap around the end of the address space. A loop that ends at a byte of a string has as fuel a
-- bound of the string's length, and gives `none` when the bound is reached before.
pub mod Copy
pub mod Compare
pub mod Strcmp
pub mod Tokens
mod Tests
use kronosos.Base.{
  ℕ, zero, suc, ◌+◌, ◌-◌, Bool, true, false, not, ◌&&◌, ◌||◌, Option, none, some, ltb, leb, ◌==◌,
  if◌then◌else◌,
}
use mathlib.Core.Option.{map}

abbrev pub Memory : Type 0
Memory = ℕ → ℕ

-- `*a = b`
pub store : Memory → ℕ → ℕ → Memory
store m a b = λ x. if x == a then b else m x

-- `n` rounds of the loop that copies upwards, from round `i` on
pub copy_up : Memory → ℕ → ℕ → ℕ → ℕ → Memory
unfolding store
copy_up m dest src zero i = m
copy_up m dest src (suc n) i = copy_up (store m (dest + i) (m (src + i))) dest src n (i + 1)

pub memcpy : Memory → ℕ → ℕ → ℕ → Memory
unfolding copy_up
memcpy m dest src n = copy_up m dest src n 0

-- `n` rounds of the loop of `memset`, from round `i` on
pub fill : Memory → ℕ → ℕ → ℕ → ℕ → Memory
unfolding store
fill m s c zero i = m
fill m s c (suc n) i = fill (store m (s + i) c) s c n (i + 1)

-- `c` is the byte, after the conversion to `uint8_t`.
pub memset : Memory → ℕ → ℕ → ℕ → Memory
unfolding fill
memset m s c n = fill m s c n 0

-- the loop of `memmove` that copies downwards from round `n` on
pub copy_down : Memory → ℕ → ℕ → ℕ → Memory
unfolding store
copy_down m dest src zero = m
copy_down m dest src (suc i) = copy_down (store m (dest + i) (m (src + i))) dest src i

pub memmove : Memory → ℕ → ℕ → ℕ → Memory
unfolding copy_up copy_down
memmove m dest src n =
    if ltb dest src
    then copy_up m dest src n 0
    else if ltb src dest
    then copy_down m dest src n
    else m

-- the result of a comparison: -1, 0 or 1
pub data Order : Type 0 where
  less : Order
  same : Order
  more : Order

-- `n` rounds of the loop of `memcmp`, from round `i` on
pub compare_from : Memory → ℕ → ℕ → ℕ → ℕ → Order
compare_from m s1 s2 zero i = same
compare_from m s1 s2 (suc n) i =
    let rest = compare_from m s1 s2 n (i + 1) in
    if not (m (s1 + i) == m (s2 + i))
    then (if ltb (m (s1 + i)) (m (s2 + i)) then less else more)
    else rest

pub memcmp : Memory → ℕ → ℕ → ℕ → Order
unfolding compare_from
memcmp m s1 s2 n = compare_from m s1 s2 n 0

-- `n` rounds of the first loop of `strncpy`, from round `i` on; behind the terminator of `src`,
-- the second loop fills with zeros.
pub strncpy_from : Memory → ℕ → ℕ → ℕ → ℕ → Memory
unfolding store fill
strncpy_from m dest src zero i = m
strncpy_from m dest src (suc n) i =
    let rest = strncpy_from (store m (dest + i) (m (src + i))) dest src n (i + 1) in
    if m (src + i) == 0 then fill m dest 0 (suc n) i else rest

pub strncpy : Memory → ℕ → ℕ → ℕ → Memory
unfolding strncpy_from
strncpy m dest src n = strncpy_from m dest src n 0

-- the loop of `strcpy`: the terminator is copied too
pub strcpy : ℕ → Memory → ℕ → ℕ → Option Memory
unfolding store
strcpy zero m d s = none
strcpy (suc fuel) m d s =
    let m' = store m d (m s) in
    let rest = strcpy fuel m' (d + 1) (s + 1) in if m s == 0 then some m' else rest

pub strlen : ℕ → Memory → ℕ → Option ℕ
strlen zero m s = none
strlen (suc fuel) m s =
    let rest = strlen fuel m (s + 1) in if m s == 0 then some 0 else map suc rest

pub strcat : ℕ → Memory → ℕ → ℕ → Option Memory
unfolding strlen strcpy
strcat fuel m dest src = elim (strlen fuel m dest) [
  | none ↦ none
  | some n ↦ strcpy fuel m (dest + n) src
]

-- `*(unsigned char *)s1 - *(unsigned char *)s2` as its sign
pub byte_order : ℕ → ℕ → Order
byte_order a b = if ltb a b then less else if a == b then same else more

pub strcmp : ℕ → Memory → ℕ → ℕ → Option Order
unfolding byte_order
strcmp zero m s1 s2 = none
strcmp (suc fuel) m s1 s2 =
    let rest = strcmp fuel m (s1 + 1) (s2 + 1) in
    if not (m s1 == 0) && (m s1 == m s2) then rest else some (byte_order (m s1) (m s2))

pub strncmp : Memory → ℕ → ℕ → ℕ → Order
unfolding byte_order
strncmp m s1 s2 zero = same
strncmp m s1 s2 (suc n) =
    let rest = strncmp m (s1 + 1) (s2 + 1) n in
    if not (m s1 == m s2) then byte_order (m s1) (m s2) else if m s1 == 0 then same else rest

-- The outer option is the fuel; the inner is NULL. `c` is the byte of a `char`.
pub strchr : ℕ → Memory → ℕ → ℕ → Option (Option ℕ)
strchr zero m s c = none
strchr (suc fuel) m s c =
    let rest = strchr fuel m (s + 1) c in
    if m s == 0
    then some (if c == 0 then some s else none)
    else if m s == c
    then some (some s)
    else rest

-- the loop of `strrchr`, with the last occurrence so far; `c` is a byte after the conversion to
-- `unsigned char`, and a `char` from 128 on is negative, so it is not equal to any such `c`.
pub strrchr_from : ℕ → Memory → ℕ → ℕ → Option ℕ → Option (Option ℕ)
strrchr_from zero m s c last = none
strrchr_from (suc fuel) m s c last =
    let rest = strrchr_from fuel m (s + 1) c (if (m s == c) && ltb c 128 then some s else last) in
    if m s == 0 then some (if c == 0 then some s else last) else rest

pub strrchr : ℕ → Memory → ℕ → ℕ → Option (Option ℕ)
unfolding strrchr_from
strrchr fuel m s c = strrchr_from fuel m s c none
