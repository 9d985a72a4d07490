-- ===== src/Slibc/Copy.antt =====
-- `memset`, `memcpy` and `strcpy`: the bytes that they write, and all others.
use xanadu_os.Base.{
  ℕ, zero, suc, ◌+◌, ◌-◌, ◌≤◌, ◌≡◌, ◌≢◌, ◌⊎◌, ◌∙◌, ◌&&◌, refl, arith, ltb, leb, if◌then◌else◌,
}
use xanadu_os.Base.Words.{u8}
use xanadu_os.Base.Memory.{Words, write}
use xanadu_os.Slibc.{memset_loop, memset, copy_loop, memcpy}

memset_loop-fills :
    (rounds i : ℕ) (mem : Words) (buf val k : ℕ)
    → memset_loop rounds i mem buf val k
      ≡ (if leb (buf + i) k && ltb k (buf + i + rounds) then u8 val else mem k)
unfolding memset_loop write
memset_loop-fills zero i mem buf val k = ground arith
memset_loop-fills (suc n) i mem buf val k =
    memset_loop-fills n (i + 1) (write mem (buf + i) (u8 val)) buf val k ∙ ground arith

-- `memset` sets each of the `siz` bytes to the low byte of the value, changes no other byte, and
-- returns the buffer.
pub memset_lem :
    (mem : Words) (buf val siz k : ℕ)
    → let (mem', ret) = memset mem buf val siz in
      (mem' k ≡ (if leb buf k && ltb k (buf + siz) then u8 val else mem k)) × (ret ≡ buf)
unfolding memset
memset_lem mem buf val siz k = (memset_loop-fills siz 0 mem buf val k ∙ ground arith, refl)

copy_loop-copies :
    (rounds i : ℕ) (mem : Words) (dest copy k : ℕ)
    → (dest ≤ copy) ⊎ (copy + (i + rounds) ≤ dest)
    → copy_loop rounds i mem dest copy k
      ≡ (if leb (dest + i) k && ltb k (dest + i + rounds) then mem (copy + (k - dest)) else mem k)
unfolding copy_loop write
copy_loop-copies zero i mem dest copy k apart = ground arith
copy_loop-copies (suc n) i mem dest copy k apart =
    copy_loop-copies n (i + 1) (write mem (dest + i) (mem (copy + i))) dest copy k (omega arith)
    ∙ ground arith

-- `memcpy` between buffers that do not overlap, or overlap with the destination below the source:
-- the destination gets the source's bytes, nothing else changes, and the destination is returned.
pub memcpy_lem :
    (mem : Words) (buf cpy len k : ℕ)
    → buf ≢ 0
    → cpy ≢ 0
    → (buf ≤ cpy) ⊎ (cpy + len ≤ buf)
    → let (mem', ret) = memcpy mem buf cpy len in
      (mem' k ≡ (if leb buf k && ltb k (buf + len) then mem (cpy + (k - buf)) else mem k))
      × (ret ≡ buf)
unfolding memcpy
memcpy_lem mem buf cpy len k p q apart =
    (ground (arith, copy_loop-copies len 0 mem buf cpy k), ground arith)
