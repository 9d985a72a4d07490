-- ===== src/Mmap/Tests.antt =====
-- A page mapped and unmapped.
use xanadu_os.Base.{
  ℕ, ◌+◌, ◌*◌, ◌/◌, ◌≡◌, ◌∙◌, refl, sym, true, false, some, [], ◌∷◌, arith, ◌==◌, if◌then◌else◌,
}
use mathlib.Core.Bool.{false≢true}
use xanadu_os.Base.Words.{test_bit, clear_bit}
use xanadu_os.Base.Memory.{Words, write, update}
use xanadu_os.Frames.Walk.{used}
use xanadu_os.Buddy.{
  Buddy, buddy_alloc_frames, buddy_free_frames, buddy_alloc_frames_max_order, buddy_coalesce,
  set_frame_unused, is_frame_free, insert_buddy, addr_to_map_id, map_to_addr, remove_free_frame,
}
use xanadu_os.Paging.{NewTable}
use xanadu_os.Mmap.{Vm, Mapping, kmmap, kmunmap}
use xanadu_os.Mmap.Translate.{Maps, kmmap_lem}
use xanadu_os.Mmap.Release.{Unmaps, kmunmap_lem, kmunmap-kmmap}

-- One free page at 0x5000; the pages beside it are used, and so are the blocks of the next order.
abbrev small_buddy : Buddy
small_buddy = record {
  mem_size = 0x800000;
  mem_start = 0;
  nodes = 12;
  lists = update (λ _. []) 0 (0x5000 ∷ []);
  num_free = update (λ _. 0) 0 1;
  map_base = λ o. 1000 * o;
  map_data = λ i. if i == 0 then 0x10 else 0;
}

abbrev vm : Vm
vm = record {
  frames = record {
    frames = λ i. 0;
    frames_num = 256;
    last_frame = λ i. record { frame_map = 0; frame = 0 };
  };
  buddy = small_buddy;
  pd = record { page_tables = λ i. 0; page_tables_virt = λ i. 0; pd_phys_addr = 0x1000 };
  mem = λ i. 0;
}

abbrev fresh : ℕ → NewTable
fresh = λ n. record { table = 0x200000 + 1024 * n; phys = 0x800000 + 4096 * n }

abbrev no_addr : Words
no_addr = λ i. 0

taken : (b : Buddy) × (va : Words) × (buddy_alloc_frames small_buddy no_addr 1 ≡ some (b, va, 0))
unfolding buddy_alloc_frames buddy_alloc_frames_max_order
taken = (_, _, refl)

at_five : taken.1 0 ≡ 0x5000
unfolding taken write
at_five = refl

not_present : test_bit 0 0 ≡ false
unfolding test_bit
not_present = refl

kmmap_lem_example :
    (m : Mapping) × (kmmap fresh vm no_addr 0x7000 3 ≡ some m)
    × Maps 0xC0000000 vm (taken.1 0) 0x7000 m
kmmap_lem_example =
    kmmap_lem 0xC0000000 fresh vm no_addr 0x7000 3 taken.0 taken.1 taken.2 (omega (arith, at_five))
      (λ e. absurd (false≢true (sym not_present ∙ e)), omega arith, omega arith, omega arith)
      (omega arith, omega arith, omega arith) (omega arith, omega arith)

given_back : (b : Buddy) × (buddy_free_frames small_buddy 0x4000 1 ≡ some b)
unfolding buddy_free_frames buddy_coalesce set_frame_unused is_frame_free insert_buddy
    addr_to_map_id map_to_addr remove_free_frame test_bit clear_bit write
given_back = (_, refl)

kmunmap_lem_example : (vm' : Vm) × (kmunmap vm 0x4000 ≡ some vm') × Unmaps vm 0x4000 vm'
kmunmap_lem_example = kmunmap_lem vm 0x4000 given_back.0 given_back.1 (omega arith)

kmunmap-kmmap_example :
    (m : Mapping) × (kmmap fresh vm no_addr 0x7000 3 ≡ some m)
    × ((b' : Buddy)
        → buddy_free_frames m.vm.buddy (taken.1 0) 1 ≡ some b'
        → (vm' : Vm) × (kmunmap m.vm (taken.1 0) ≡ some vm')
          × (used vm'.frames.frames (0x7000 / 4096) ≡ true))
kmunmap-kmmap_example =
    kmunmap-kmmap fresh vm no_addr 0x7000 3 taken.0 taken.1 taken.2 (omega (arith, at_five))
      (λ e. absurd (false≢true (sym not_present ∙ e)), omega arith, omega arith, omega arith)
      (omega arith, omega arith, omega arith) (omega arith, omega arith) (omega (arith, at_five))
