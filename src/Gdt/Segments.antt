-- ===== src/Gdt/Segments.antt =====
-- What the processor reads from the descriptors.
use xanadu_os.Base.{
  ℕ, ◌+◌, ◌-◌, ◌*◌, ◌/◌, ◌%◌, ◌^◌, ◌≤◌, ◌<◌, ◌≡◌, arith, Bool, true, false, leb, ◌==◌,
  if◌then◌else◌,
}
use xanadu_os.Gdt.{Gdt, GdtEntry, gdt_fill_entry, fill_gdt}

-- The base of a segment, and its last offset: with bit 3 of the flags, the granularity, the limit
-- counts pages.
abbrev pub base_of : GdtEntry → ℕ
base_of e = e.base_low + e.base_middle * 2 ^ 16 + e.base_high * 2 ^ 24

abbrev pub limit_of : GdtEntry → ℕ
limit_of e = e.limit_low + e.limit_high * 2 ^ 16

abbrev pub last_offset : GdtEntry → ℕ
last_offset e = if leb 8 e.flags then limit_of e * 4096 + 4095 else limit_of e

abbrev pub privilege : GdtEntry → ℕ
privilege e = e.acces / 2 ^ 5 % 4

abbrev pub is_present : GdtEntry → Bool
is_present e = leb 128 e.acces

abbrev pub is_executable : GdtEntry → Bool
is_executable e = e.acces / 2 ^ 3 % 2 == 1

-- The split fields of an entry join to the base and to the low 20 bits of the limit, and no other
-- entry changes.
pub gdt_fill_entry_lem :
    (id base limit access flags k : ℕ) (g : Gdt)
    → base < 2 ^ 32
    → access < 2 ^ 8
    → flags < 2 ^ 4
    → let e = gdt_fill_entry id base limit access flags g id in
      (base_of e ≡ base)
      × (limit_of e ≡ limit % 2 ^ 20)
      × (e.acces ≡ access)
      × (e.flags ≡ flags)
      × (gdt_fill_entry id base limit access flags g k ≡ (if id == k then e else g k))
unfolding gdt_fill_entry
gdt_fill_entry_lem id base limit access flags k g h a f =
    (ground arith, ground arith, ground arith, ground arith, ground arith)

-- Entries 1 to 4 are present segments from 0 to the end of the address space: 1 and 2 with
-- privilege 0, 3 and 4 with privilege 3, and 1 and 3 for code. Entry 0 is not present, and entry 5
-- covers the task state segment, for one of at most 1 MiB.
pub fill_gdt_lem :
    (tss tss_size : ℕ) (g : Gdt) (id : ℕ)
    → tss < 2 ^ 32
    → 0 < tss_size
    → tss_size ≤ 2 ^ 20
    → 0 < id
    → id < 5
    → let g' = fill_gdt tss tss_size g in
      (is_present (g' id) ≡ true)
      × (base_of (g' id) ≡ 0)
      × (last_offset (g' id) ≡ 2 ^ 32 - 1)
      × (privilege (g' id) ≡ (if leb 3 id then 3 else 0))
      × (is_executable (g' id) ≡ (id % 2 == 1))
      × (is_present (g' 0) ≡ false)
      × (base_of (g' 5) ≡ tss)
      × (base_of (g' 5) + last_offset (g' 5) + 1 ≡ tss + tss_size)
unfolding fill_gdt
fill_gdt_lem tss tss_size g id h p m pos lt = (
  ground arith,
  ground arith,
  ground arith,
  ground arith,
  ground arith,
  ground arith,
  ground arith,
  ground arith,
)
