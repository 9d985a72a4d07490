-- ===== src/Heap/Tests.antt =====
-- A heap of 16 megabytes at its start.
use xanadu_os.Base.{
  ℕ, ◌+◌, ◌%◌, ◌≤◌, ◌<◌, ◌≡◌, refl, true, false, arith, ◌==◌, ◌-◌, some, if◌then◌else◌,
}
use xanadu_os.Base.Words.{u32}
use xanadu_os.Heap.{
  Heap, Header, fitting, out_of_fuel, find_hole, fits, align_up, cut_block, kmalloc_align, do_alloc,
}
use xanadu_os.Heap.Fit.{Allocates, kmalloc_align_lem}
use xanadu_os.Heap.Split.{cut_block-cycle, do_alloc-covers}

abbrev zeroed : ℕ → Header
zeroed a = record { magic_num = 0; next = 0; prev = 0; next_hole = 0; size = 0; is_hole = false }

abbrev whole : Heap
whole = record {
  blocks = λ a.
      if a == 0x200000
      then record {
        magic_num = 0x0BADBABA;
        next = 0;
        prev = 0;
        next_hole = 0;
        size = 0x1000000;
        is_hole = true;
      }
      else zeroed a;
  heap_base_addr = 0x200000;
  heap_end_addr = 0x1200000;
}

first_fits : find_hole 3 whole 0x200000 0 (align_up 100 16) 16 ≡ fitting 0x200000
unfolding find_hole
first_fits = refl

kmalloc_align_lem_example :
    (addr : ℕ) × Allocates 0x200000 addr (kmalloc_align (λ a n. 0) 3 100 16 whole)
    × (addr % 16 ≡ 0)
    × (0x200000 + 32 ≤ addr)
    × (addr + 100 ≤ 0x200000 + 0x1000000)
    × (true ≡ true)
kmalloc_align_lem_example =
    kmalloc_align_lem (λ a n. 0) 3 100 16 0x200000 whole (omega arith) (omega arith) (omega arith)
      (omega arith) (λ a n. refl) first_fits

too_large : fits (cut_block whole 0x200000 112 0x200020) (u32 (0x200020 + 112)) 0x2000000 16 ≡ false
unfolding cut_block
too_large = refl

-- The second allocation searches for ever, here for a thousand rounds.
cut_block-cycle_example :
    find_hole 1000
      (cut_block whole 0x200000 112 0x200020)
      (u32 (0x200020 + 112))
      0x200000
      0x2000000
      16
    ≡ out_of_fuel
cut_block-cycle_example =
    cut_block-cycle whole 112 0x200020 refl (omega arith) (omega arith) (omega arith) 1000 0x200000
      0x2000000 16 too_large

-- A block of 0x2000 bytes that is allocated, behind a hole of 0x1000 bytes.
abbrev behind : Heap
behind = record {
  blocks = λ a.
      if a == 0x200000
      then record {
        magic_num = 0x0BADBABA;
        next = 0x201000;
        prev = 0;
        next_hole = 0;
        size = 0x1000;
        is_hole = true;
      }
      else if a == 0x201000
      then record {
        magic_num = 0x0BADBABA;
        next = 0;
        prev = 0x200000;
        next_hole = 0;
        size = 0x2000;
        is_hole = false;
      }
      else zeroed a;
  heap_base_addr = 0x200000;
  heap_end_addr = 0x1200000;
}

do_alloc-covers_example :
    (s' : Heap) × (do_alloc (λ a n. 0) 0x200000 112 0x200020 behind ≡ some (s', 0x200020))
    × (s'.blocks 0x201000 ≡ behind.blocks 0x201000)
    × ((s'.blocks (0x200020 + 112)).is_hole ≡ true)
    × (0x200020 + 112 < 0x201000)
    × (0x200020 + 112 + (s'.blocks (0x200020 + 112)).size ≡ 0x1200000)
    × (fits s' (0x200020 + 112) (0x201000 + 0x2000 - (0x200020 + 112 + 32)) 1 ≡ true)
do_alloc-covers_example =
    do_alloc-covers (λ a n. 0) behind 0x200000 112 0x200020 0x201000 refl refl (omega arith)
      (omega arith) (omega arith) (omega arith) (omega arith) (omega arith) (omega arith)
