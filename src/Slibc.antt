-- ===== src/Slibc.antt =====
-- lib/slibc.c, the kernel's string and memory functions. Bytes are numbers below 256; a `char` is
-- signed. An `int` is its 32-bit pattern. A pointer that is only read is the array behind it
-- (`none` for NULL); the functions that write take the memory and addresses in it, 0 being NULL.
pub mod Number
pub mod Copy
pub mod Compare
pub mod Length
mod Tests
use xanadu_os.Base.{
  ℕ, zero, suc, ◌+◌, ◌-◌, ◌*◌, ◌%◌, ◌^◌, Bool, ◌&&◌, ◌||◌, not, Option, none, some, ltb, ◌==◌,
  if◌then◌else◌,
}
use xanadu_os.Base.Words.{u8, u32, sub32}
use xanadu_os.Base.Memory.{Words, write}

-- A `char` as the `int` that arithmetic makes of it.
abbrev pub to_int : ℕ → ℕ
to_int c = if ltb c 128 then c else c + (2 ^ 32 - 256)

-- From index `i` down to 1. `len` is not read.
pub atoi_loop : (i : ℕ) → Words → (radix order res : ℕ) → ℕ
atoi_loop zero str radix order res = res
atoi_loop (suc i) str radix order res =
    let c = str i in
    atoi_loop i str radix (if c == 0 then order else u32 (order * radix))
      (if c == 0 then res else u32 (res + sub32 (to_int c) 48 * order))

unfoldable pub atoi : Words → (len radix : ℕ) → ℕ
unfolding atoi_loop
atoi str len radix = atoi_loop 12 str radix 1 0

pub memset_loop : (rounds i : ℕ) → Words → (buf val : ℕ) → Words
memset_loop zero i mem buf val = mem
memset_loop (suc n) i mem buf val = memset_loop n (i + 1) (write mem (buf + i) (u8 val)) buf val

pub memset : Words → (buf val siz : ℕ) → Words × ℕ
unfolding memset_loop
memset mem buf val siz = (memset_loop siz 0 mem buf val, buf)

-- The loop of `memcpy` and of `strcpy`.
pub copy_loop : (rounds i : ℕ) → Words → (dest copy : ℕ) → Words
copy_loop zero i mem dest copy = mem
copy_loop (suc n) i mem dest copy =
    copy_loop n (i + 1) (write mem (dest + i) (mem (copy + i))) dest copy

pub memcpy : Words → (buf cpy len : ℕ) → Words × ℕ
unfolding copy_loop
memcpy mem buf cpy len =
    if buf == 0 || cpy == 0 then (mem, 0) else (copy_loop len 0 mem buf cpy, buf)

-- It copies `len` bytes, whether or not the string ends before.
pub strcpy : Words → (str cpy len : ℕ) → Words × ℕ
unfolding copy_loop
strcpy mem str cpy len =
    if str == 0 || cpy == 0 then (mem, 0) else (copy_loop len 0 mem str cpy, str)

-- The same loop from one array into another, to the places from `at` on.
unfoldable pub copy_in : (rounds i : ℕ) → (dest : Words) → (at : ℕ) → (copy : Words) → Words
copy_in zero i dest at copy = dest
copy_in (suc n) i dest at copy = copy_in n (i + 1) (write dest (at + i) (copy i)) at copy

-- Fuel bounds the loops that end at a NUL byte only; `none` is fuel run out.
pub strcmp_loop : (fuel i : ℕ) → Words → Words → (diff : ℕ) → Option ℕ
strcmp_loop zero i str cmp diff = none
strcmp_loop (suc f) i str cmp diff =
    let diff' = u32 (diff + sub32 (to_int (str i)) (to_int (cmp i))) in
    let rest = strcmp_loop f (i + 1) str cmp diff' in
    if str i == 0 || cmp i == 0 then some diff' else rest

pub strcmp : ℕ → Option Words → Option Words → Option ℕ
unfolding strcmp_loop
strcmp fuel none cmp = some (2 ^ 32 - 1)
strcmp fuel (some str) none = some (2 ^ 32 - 1)
strcmp fuel (some str) (some cmp) = strcmp_loop fuel 0 str cmp 0

pub strnlen_loop : (rounds i : ℕ) → Words → ℕ
strnlen_loop zero i str = i
strnlen_loop (suc n) i str = let rest = strnlen_loop n (i + 1) str in if str i == 0 then i else rest

unfoldable pub strnlen : Words → ℕ → ℕ
unfolding strnlen_loop
strnlen str len = strnlen_loop len 0 str

pub strlen_loop : (fuel i : ℕ) → Words → Option ℕ
strlen_loop zero i str = none
strlen_loop (suc f) i str =
    let rest = strlen_loop f (i + 1) str in if str i == 0 then some i else rest

pub strlen : ℕ → Words → Option ℕ
unfolding strlen_loop
strlen fuel str = strlen_loop fuel 0 str

pub strneq_loop : (rounds i : ℕ) → Words → Words → ℕ
strneq_loop zero i str cmp = 0
strneq_loop (suc n) i str cmp =
    let rest = strneq_loop n (i + 1) str cmp in
    if not (str i == 0) || not (cmp i == 0) then (if str i == cmp i then rest else 1) else 0

pub strneq : Option Words → Option Words → ℕ → ℕ
unfolding strneq_loop
strneq none cmp len = 2 ^ 32 - 1
strneq (some str) none len = 2 ^ 32 - 1
strneq (some str) (some cmp) len = if len == 0 then 0 else strneq_loop len 0 str cmp
