-- ===== src/Gdt.antt =====
-- kernel/gdt.c, the global descriptor table. A field of a bit width is the number that the bits
-- write; `base_high`, an `int8_t`, is its bit pattern. The masks are those of drivers/gdt.h.
pub mod Segments
mod Tests
use xanadu_os.Base.{ℕ, ◌+◌, ◌-◌, ◌*◌, ◌/◌, ◌%◌, ◌^◌, ◌==◌, if◌then◌else◌}
use xanadu_os.Base.Memory.{update}

-- `struct gdt_entry`.
pub record GdtEntry : Type 0 where
  pub limit_low : ℕ
  pub base_low : ℕ
  pub base_middle : ℕ
  pub acces : ℕ
  pub limit_high : ℕ
  pub flags : ℕ
  pub base_high : ℕ

abbrev pub Gdt : Type 0
Gdt = ℕ → GdtEntry

pub gdt_fill_entry : (id base limit access flags : ℕ) → Gdt → Gdt
gdt_fill_entry id base limit access flags gdt = update gdt id (record {
  limit_low = limit % 2 ^ 16;
  base_low = base % 2 ^ 16;
  base_middle = base / 2 ^ 16 % 2 ^ 8;
  acces = access % 2 ^ 8;
  limit_high = limit / 2 ^ 16 % 2 ^ 4;
  flags = flags % 2 ^ 4;
  base_high = base / 2 ^ 24 % 2 ^ 8;
})

abbrev pub present_mask : ℕ
present_mask = 2 ^ 7

abbrev pub dpl_mask : ℕ
dpl_mask = 3 * 2 ^ 5

abbrev pub non_system_seg_mask : ℕ
non_system_seg_mask = 2 ^ 4

abbrev pub exec_mask : ℕ
exec_mask = 2 ^ 3

abbrev pub rw_mask : ℕ
rw_mask = 2 ^ 1

-- `GDTF_GRAN | GDTF_PROTECTED_MODE`.
abbrev pub segment_flags : ℕ
segment_flags = 2 ^ 3 + 2 ^ 2

-- `tss` is the address of the task state segment and `tss_size` its size. An `|` of different masks
-- is a sum.
pub fill_gdt : (tss tss_size : ℕ) → Gdt → Gdt
unfolding gdt_fill_entry
fill_gdt tss tss_size g =
    let max = 2 ^ 32 - 1 in
    let seg = present_mask + non_system_seg_mask in
    let g0 = gdt_fill_entry 0 0 0 0 0 g in
    let g1 = gdt_fill_entry 1 0 max (seg + exec_mask + rw_mask) segment_flags g0 in
    let g2 = gdt_fill_entry 2 0 max (seg + rw_mask) segment_flags g1 in
    let g3 = gdt_fill_entry 3 0 max (seg + dpl_mask + exec_mask + rw_mask) segment_flags g2 in
    let g4 = gdt_fill_entry 4 0 max (seg + dpl_mask + rw_mask) segment_flags g3 in
    gdt_fill_entry 5 tss (tss_size - 1) (1 + exec_mask + present_mask) 0 g4
