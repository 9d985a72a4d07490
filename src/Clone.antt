-- ===== src/Clone.antt =====
-- mem/paging.c, the copy of a page directory for a new task. The directory that is copied is that of
-- the `Vm`, since the pages are mapped in it for the copy. The new tables are a parameter, and so are
-- the two arrays of the new directory, with what they hold at first. The contents of pages are not
-- modelled: `copied` lists the copies, a page by its physical address and the source by its virtual
-- one, the newest first. `none` is a fault or fuel run out in the allocators.
pub mod Entries
mod Tests
use xanadu_os.Base.{
  ℕ, zero, suc, ◌+◌, ◌-◌, ◌*◌, ◌^◌, Bool, true, false, ◌&&◌, not, ◌||◌, Option, none, some, ◌==◌,
  if◌then◌else◌, List, [], ◌∷◌,
}
use xanadu_os.Base.Words.{u16, u32, test_bit}
use xanadu_os.Base.Memory.{Words, write}
use xanadu_os.Base.Errors.{einval, enomem}
use xanadu_os.Frames.{Found, find_alloc_frame}
use xanadu_os.Paging.{
  PageDir, NewTable, pt_size, get_tab_flags, get_tab_pure_addr, get_virt_addr, tab_present,
  clear_accessed, window, put_window,
}
use xanadu_os.Mmap.{Vm, Mapping, kmmap, knmunmap_contiguous}

-- Bit 2 of an entry.
abbrev pub is_user : ℕ → Bool
is_user entry = test_bit entry 2

pub record Copying : Type 0 where
  pub vm : Vm
  pub copied : List (ℕ × ℕ)

-- On with the next step after a success; an error ends the copy.
abbrev pub then_on {ℓ} : {A : Type ℓ} → (A → Option (A × ℕ)) → Option (A × ℕ) → Option (A × ℕ)
then_on next none = none
then_on next (some (s, ret)) = if ret == 0 then next s else some (s, ret)

abbrev pub unmapped : (copied : List (ℕ × ℕ)) → Option Vm → Option (Copying × ℕ)
unmapped copied none = none
unmapped copied (some vm) = some (record { vm = vm; copied = copied }, 0)

abbrev pub mapped : (dest_phys src_virt : ℕ) → Copying → Option Mapping → Option (Copying × ℕ)
mapped dest_phys src_virt s none = none
mapped dest_phys src_virt s (some m) =
    if m.ret == 0
    then unmapped ((dest_phys, src_virt) ∷ s.copied) (knmunmap_contiguous m.vm (m.virt_addr 0) 1)
    else some (record s { vm = m.vm }, 1)

pub copy_page : (fresh : ℕ → NewTable) → (dest_phys src_virt : ℕ) → Copying → Option (Copying × ℕ)
copy_page fresh dest_phys src_virt s =
    mapped dest_phys src_virt s (kmmap fresh s.vm (λ _. 0) dest_phys 3)

-- The frame for an entry of the new table.
abbrev pub framed : Copying → (at : ℕ) → Option Found → Option (Copying × ℕ)
framed s at none = none
framed s at (some f) = some (
  record s {
    vm = record (s.vm) {
      frames = record (s.vm.frames) { frames = f.frames };
      mem = put_window s.vm.mem at 1 f.addrs;
    };
  },
  if f.ret == 0 then 0 else enomem,
)

-- The entries from `i` on of the table `pt` of the directory's entry `pde`.
pub clone_entries :
    (fresh : ℕ → ℕ → NewTable)
    → (rounds i : ℕ) → (pde pt new_pt : ℕ) → Copying
    → Option (Copying × ℕ)
unfolding copy_page
clone_entries fresh zero i pde pt new_pt s = some (s, 0)
clone_entries fresh (suc n) i pde pt new_pt s =
    let next = clone_entries fresh n (i + 1) pde pt new_pt in
    let entry = s.vm.mem (pt + i) in
    let filled =
      then_on
        (λ s'. then_on next (
          copy_page (fresh i) (get_tab_pure_addr (s'.vm.mem (new_pt + i))) (get_virt_addr pde i)
            s'))
        (framed s (new_pt + i)
          (find_alloc_frame s.vm.frames (window s.vm.mem (new_pt + i)) (get_tab_flags entry))) in
    let shared =
      next (record s { vm = record (s.vm) { mem = write s.vm.mem (new_pt + i) entry } }) in
    if is_user entry && tab_present entry then filled else shared

pub clone_page_table :
    (fresh : ℕ → ℕ → NewTable) → (new_pt : NewTable) → (pde : ℕ) → Copying → Option (Copying × ℕ)
unfolding clone_entries
clone_page_table fresh new_pt pde s =
    if new_pt.table == 0
    then some (s, einval)
    else clone_entries fresh pt_size 0 pde (s.vm.pd.page_tables_virt pde) new_pt.table s

-- The copy of a directory under way.
pub record Cloning : Type 0 where
  pub state : Copying
  pub new_pd : PageDir

abbrev pub set_entry : (pde entry table : ℕ) → PageDir → PageDir
set_entry pde entry table pd = record pd {
  page_tables = write pd.page_tables pde entry;
  page_tables_virt = write pd.page_tables_virt pde table;
}

-- Behind `clone_page_table`.
abbrev pub with_table :
    (new_pt : NewTable) → (pde : ℕ) → PageDir → Option (Copying × ℕ) → Option (Cloning × ℕ)
with_table new_pt pde new_pd none = none
with_table new_pt pde new_pd (some (s, ret)) =
    if ret == 0
    then some (record { state = s; new_pd = set_entry pde new_pt.phys new_pt.table new_pd }, 0)
    else some (record { state = s; new_pd = new_pd }, ret)

-- One round, behind the reset of the accessed flag: an entry for the user gets a table of its own, and
-- any other is shared.
pub clone_entry :
    (fresh : ℕ → ℕ → ℕ → NewTable)
    → (new_pts : ℕ → NewTable) → (pde : ℕ) → Cloning
    → Option (Cloning × ℕ)
unfolding clone_page_table
clone_entry fresh new_pts pde c =
    let s = c.state in
    let entry = s.vm.pd.page_tables pde in
    let own =
      with_table (new_pts pde) pde c.new_pd (clone_page_table (fresh pde) (new_pts pde) pde s) in
    if is_user entry && tab_present entry
    then own
    else some (record c { new_pd = set_entry pde entry (s.vm.pd.page_tables_virt pde) c.new_pd }, 0)

abbrev pub not_accessed : (pde : ℕ) → Cloning → Cloning
not_accessed pde c =
    let vm = c.state.vm in
    record c { state = record (c.state) { vm = record vm { pd = clear_accessed vm.pd pde } } }

pub dir_loop :
    (fresh : ℕ → ℕ → ℕ → NewTable)
    → (new_pts : ℕ → NewTable) → (rounds pde : ℕ) → Cloning
    → Option (Cloning × ℕ)
unfolding clone_entry
dir_loop fresh new_pts zero pde c = some (c, 0)
dir_loop fresh new_pts (suc n) pde c =
    then_on (dir_loop fresh new_pts n (pde + 1))
      (clone_entry fresh new_pts pde (not_accessed pde c))

-- `tables` and `tables_virt` are what the heap gives for the arrays, 0 for NULL.
pub clone_page_dir :
    (fresh : ℕ → ℕ → ℕ → NewTable)
    → (new_pts : ℕ → NewTable) → (tables : NewTable) → (tables_virt : ℕ) → Cloning
    → Option (Cloning × ℕ)
unfolding dir_loop
clone_page_dir fresh new_pts tables tables_virt c =
    if tables.table == 0 || tables_virt == 0
    then some (c, enomem)
    else dir_loop fresh new_pts pt_size 0
        (record c { new_pd = record (c.new_pd) { pd_phys_addr = tables.phys } })

-- The directory in use, and whether the processor gets a new one.
abbrev pub switch_page_dir : (cur_pd pd : ℕ) → ℕ × Bool
switch_page_dir cur_pd pd = if cur_pd == pd then (cur_pd, false) else (pd, true)
