-- ===== src/Strings/Tests.antt =====
-- Overlapping copies and comparisons on small memories.
use kronosos.Base.{◌+◌, ◌-◌, ◌≡◌, refl, inr, some, arith}
use kronosos.Strings.{Memory, memcpy, memmove, strlen}
use kronosos.Strings.{strcmp}
use kronosos.Strings.Strcmp.{Answer, strcmp-Answer}
use kronosos.Strings.Copy.{memcpy-memmove}
use kronosos.Strings.Compare.{IsString, strlen_lem, memcmp-Decided, Decided}
use kronosos.Strings.{memcmp}
use kronosos.Strings.Copy.{memmove_lem}
use kronosos.Base.{ltb, leb, ◌&&◌, if◌then◌else◌}

-- each address holds itself
abbrev ramp : Memory
ramp a = a

memmove_lem_example :
    memmove ramp 2 1 4 3 ≡ (if leb 2 3 && ltb 3 (2 + 4) then ramp (1 + (3 - 2)) else ramp 3)
memmove_lem_example = memmove_lem ramp 2 1 4 3

memcpy-memmove_example : memcpy ramp 10 1 4 12 ≡ memmove ramp 10 1 4 12
memcpy-memmove_example = memcpy-memmove ramp 10 1 4 12 (inr (omega arith))

memcmp-Decided_example : Decided ramp 1 3 0 2 (memcmp ramp 1 3 2)
memcmp-Decided_example = memcmp-Decided ramp 1 3 2

-- a string of three bytes at address 5
abbrev three : Memory
three a = 8 - a

three-IsString : IsString three 5 3
three-IsString = record { inner = λ i h. omega arith; end = refl }

strlen_lem_example : strlen 10 three 5 ≡ some 3
strlen_lem_example = strlen_lem 10 three-IsString (omega arith)

strcmp-Answer_example : Answer three 5 6 3 (strcmp 10 three 5 6)
strcmp-Answer_example = strcmp-Answer 10 6 three-IsString (omega arith)
