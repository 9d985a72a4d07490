-- ===== src/Mmap.antt =====
-- mem/mmap.c, mapping and unmapping of pages: a range of virtual addresses from the buddy allocator,
-- its page table, and frames from the frame allocator. The flushes of the processor's cache of
-- translations are left out. `none` is a fault or fuel run out in the allocators.
pub mod Translate
pub mod Release
mod Tests
use xanadu_os.Base.{
  List, ℕ, zero, suc, ◌+◌, ◌-◌, ◌*◌, ◌/◌, ◌%◌, Bool, not, Option, none, some, ltb, leb, ◌==◌,
  if◌then◌else◌,
}
use xanadu_os.Base.Words.{u16, u32}
use xanadu_os.Base.Memory.{Words}
use xanadu_os.Base.Errors.{einval, enomem}
use xanadu_os.Frames.{FrameState, Found, alloc_nframes, find_alloc_nframes, dealloc_nframes}
use xanadu_os.Buddy.{Buddy, buddy_alloc_frames, buddy_free_frames, buddy_alloc_create}
use xanadu_os.Paging.{
  PageDir, NewTable, Mapped, pt_size, get_pde_pte, map_alloc_npt, map_alloc_pt, unmap_pages, window,
  put_window,
}

abbrev pub div_align_up : (num alignment : ℕ) → ℕ
div_align_up num alignment = num / alignment + (if num % alignment == 0 then 0 else 1)

-- The allocators and the directory that a mapping changes.
pub record Vm : Type 0 where
  pub frames : FrameState
  pub buddy : Buddy
  pub pd : PageDir
  pub mem : Words

-- What `knmmap_table` leaves: `pt_ptr` is the entry that it points its result to.
pub record Table : Type 0 where
  pub vm : Vm
  pub virt_addr : Words
  pub pt_ptr : ℕ
  pub ret : ℕ

-- Behind a successful call of the buddy allocator.
pub table_for :
    (fresh : ℕ → NewTable)
    → Vm
    → (virt_addr : Words) → (pde_pte : ℕ × ℕ) → (page_num flags : ℕ) → Table
unfolding map_alloc_npt
table_for fresh vm virt_addr (pde, pte) page_num flags =
    let m = map_alloc_npt fresh vm.pd vm.mem (λ _. 0) (div_align_up page_num pt_size) pde flags in
    record {
      vm = record vm { pd = m.pd; mem = m.mem };
      virt_addr = virt_addr;
      pt_ptr = m.pt 0 + pte;
      ret = m.ret;
    }

abbrev pub buddy_gave :
    (fresh : ℕ → NewTable) → Vm → (page_num flags : ℕ) → Option (Buddy × Words × ℕ) → Option Table
buddy_gave fresh vm page_num flags none = none
buddy_gave fresh vm page_num flags (some (b, virt_addr, ret)) =
    let vm' : Vm = record vm { buddy = b } in
    some (
      if ret == 0
      then table_for fresh vm' virt_addr (get_pde_pte (virt_addr 0)) page_num flags
      else record { vm = vm'; virt_addr = virt_addr; pt_ptr = 0; ret = ret })

pub knmmap_table :
    (fresh : ℕ → NewTable) → Vm → (virt_addr : Words) → (page_num flags : ℕ) → Option Table
unfolding table_for get_pde_pte
knmmap_table fresh vm virt_addr page_num flags =
    buddy_gave fresh vm page_num flags (buddy_alloc_frames vm.buddy virt_addr page_num)

-- What a mapping leaves.
pub record Mapping : Type 0 where
  pub vm : Vm
  pub virt_addr : Words
  pub ret : ℕ

-- The frames at a given physical address.
pub at_phys : Vm → (pt_ptr page_num phys_addr flags : ℕ) → Vm × ℕ
unfolding put_window
at_phys vm pt_ptr page_num phys_addr flags =
    let (frames', out, ret) =
      alloc_nframes vm.frames.frames page_num phys_addr (window vm.mem pt_ptr) (u16 flags) in
    (
      record vm {
        frames = record (vm.frames) { frames = frames' };
        mem = put_window vm.mem pt_ptr page_num out;
      },
      ret,
    )

abbrev pub frames_found : Vm → (pt_ptr page_num : ℕ) → Option Found → Option (Vm × ℕ)
frames_found vm pt_ptr page_num none = none
frames_found vm pt_ptr page_num (some f) = some (
  record vm {
    frames = record (vm.frames) { frames = f.frames };
    mem = put_window vm.mem pt_ptr page_num f.addrs;
  },
  f.ret,
)

pub map_frames : Vm → (pt_ptr page_num phys_addr flags : ℕ) → Option (Vm × ℕ)
unfolding at_phys put_window
map_frames vm pt_ptr page_num phys_addr flags =
    if not (phys_addr == 0)
    then some (at_phys vm pt_ptr page_num phys_addr flags)
    else frames_found vm pt_ptr page_num
        (find_alloc_nframes vm.frames page_num (window vm.mem pt_ptr) (u16 flags))

abbrev pub mapping_of : Words → Option (Vm × ℕ) → Option Mapping
mapping_of virt_addr none = none
mapping_of virt_addr (some (vm, ret)) = some (record { vm = vm; virt_addr = virt_addr; ret = ret })

abbrev pub with_table : (phys_addr page_num flags : ℕ) → Option Table → Option Mapping
with_table phys_addr page_num flags none = none
with_table phys_addr page_num flags (some t) =
    if t.ret == 0
    then mapping_of t.virt_addr (map_frames t.vm t.pt_ptr page_num phys_addr flags)
    else some (record { vm = t.vm; virt_addr = t.virt_addr; ret = t.ret })

pub knmmap :
    (fresh : ℕ → NewTable)
    → Vm
    → (virt_addr : Words) → (phys_addr page_num flags : ℕ) → Option Mapping
unfolding knmmap_table map_frames
knmmap fresh vm virt_addr phys_addr page_num flags =
    with_table phys_addr page_num (u16 flags) (knmmap_table fresh vm virt_addr page_num (u16 flags))

pub kmmap :
    (fresh : ℕ → NewTable) → Vm → (virt_addr : Words) → (phys_addr flags : ℕ) → Option Mapping
unfolding knmmap
kmmap fresh vm virt_addr phys_addr flags = knmmap fresh vm virt_addr phys_addr 1 flags

-- Behind the release of the range.
pub unmap_range : Vm → (pde_pte : ℕ × ℕ) → (virt_addr page_num : ℕ) → Buddy → Vm
unfolding unmap_pages
unmap_range vm (pde, pte) virt_addr page_num b = record {
  buddy = b;
  pd = vm.pd;
  mem = unmap_pages vm.pd vm.mem pde pte page_num;
  frames = record (vm.frames) { frames = dealloc_nframes vm.frames.frames virt_addr page_num };
}

abbrev pub range_freed : Vm → (virt_addr page_num : ℕ) → Option Buddy → Option Vm
range_freed vm virt_addr page_num none = none
range_freed vm virt_addr page_num (some b) =
    some (unmap_range vm (get_pde_pte virt_addr) virt_addr page_num b)

pub knmunmap_contiguous : Vm → (virt_addr page_num : ℕ) → Option Vm
unfolding unmap_range get_pde_pte
knmunmap_contiguous vm virt_addr page_num =
    range_freed vm virt_addr page_num (buddy_free_frames vm.buddy virt_addr page_num)

pub kmunmap : Vm → (virt_addr : ℕ) → Option Vm
unfolding knmunmap_contiguous
kmunmap vm virt_addr = knmunmap_contiguous vm virt_addr 1

-- The loop of `map_pages` at its round `i`, with the search's result for the round. Each round
-- searches for all the pages.
abbrev pub found_for :
    (next : Vm → Option (Vm × ℕ)) → Vm → (pt_ptr npages : ℕ) → Option Found → Option (Vm × ℕ)
found_for next vm pt_ptr npages none = none
found_for next vm pt_ptr npages (some f) =
    let vm' : Vm = record vm {
      frames = record (vm.frames) { frames = f.frames };
      mem = put_window vm.mem pt_ptr npages f.addrs;
    } in
    if f.ret == 0 then next vm' else some (vm', f.ret)

pub map_loop :
    (fresh : ℕ → ℕ → NewTable) → (rounds i : ℕ) → (pde pte npages : ℕ) → Vm → Option (Vm × ℕ)
unfolding map_alloc_pt put_window
map_loop fresh zero i pde pte npages vm = some (vm, 0)
map_loop fresh (suc n) i pde pte npages vm =
    let m = map_alloc_pt (fresh i) vm.pd vm.mem (λ _. 0) (u16 (pde + i)) 3 in
    let vm' : Vm = record vm { pd = m.pd; mem = m.mem } in
    let at = m.pt 0 + pte in
    if leb pt_size (pde + i)
    then some (vm, enomem)
    else if not (m.ret == 0)
    then some (vm', m.ret)
    else found_for (map_loop fresh n (i + 1) pde pte npages) vm' at npages
        (find_alloc_nframes vm'.frames npages (window vm'.mem at) 3)

pub map_pages : (fresh : ℕ → ℕ → NewTable) → (pde pte npages : ℕ) → Vm → Option (Vm × ℕ)
unfolding map_loop
map_pages fresh pde pte npages vm =
    if pte == 0
    then map_loop fresh (div_align_up npages pt_size) 0 pde pte npages vm
    else some (vm, einval)

pub mmap_pages : (fresh : ℕ → ℕ → NewTable) → (addr npages : ℕ) → Vm → Option (Vm × ℕ)
unfolding map_pages get_pde_pte
mmap_pages fresh addr npages vm =
    let (pde, pte) = get_pde_pte addr in map_pages fresh pde pte npages vm

pub mmap_page : (fresh : ℕ → ℕ → NewTable) → (addr : ℕ) → Vm → Option (Vm × ℕ)
unfolding map_pages get_pde_pte
mmap_page fresh addr vm = let (pde, pte) = get_pde_pte addr in map_pages fresh pde pte 1 vm

-- `kern_buddy`; `nodes` is what its slab cache can give, and `stale` what its last node leads to.
pub kmmap_init : (nodes : ℕ) → (stale : List ℕ) → Option Buddy
kmmap_init nodes stale = buddy_alloc_create nodes stale 0xD0000000 0xFFFFFFFF
