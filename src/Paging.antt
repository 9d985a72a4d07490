-- ===== src/Paging.antt =====
-- mem/paging.c, page directories and page tables, with the helpers of mem/paging.h. The memory of the
-- tables is an array of 32-bit words and a table is the index of its first word, 0 for NULL. The
-- tables that the heap gives are a parameter: for each request the table and its physical address.
-- Pointers to directories and to results are not null, but for the directory of `to_phys_addr`.
pub mod Address
pub mod Tables
pub mod Unmap
pub mod Fault
mod Tests
use Prim.Native.Nat.{bit_and, bit_or}
use xanadu_os.Base.{
  ℕ, zero, suc, ◌+◌, ◌-◌, ◌*◌, ◌/◌, ◌%◌, ◌^◌, Bool, true, false, ◌&&◌, not, Option, none, some, ltb,
  leb, ◌==◌, if◌then◌else◌,
}
use xanadu_os.Base.Words.{u16, u32, sub32, not32, test_bit, set_bit, clear_bit}
use xanadu_os.Base.Memory.{Words, write}
use xanadu_os.Base.Errors.{enomem}
use xanadu_os.Frames.{FrameState, Found, page_size, find_alloc_frame}

abbrev pub pt_size : ℕ
pt_size = 1024

-- Bits 0, 1 and 5 of an entry.
abbrev pub present : ℕ
present = 1

abbrev pub r_w : ℕ
r_w = 2

abbrev pub accessed_bit : ℕ
accessed_bit = 5

-- `struct page_dir`.
pub record PageDir : Type 0 where
  pub page_tables : Words
  pub page_tables_virt : Words
  pub pd_phys_addr : ℕ

-- `*pde_p` and `*pte_p`.
unfoldable pub get_pde_pte : ℕ → ℕ × ℕ
get_pde_pte addr = (u16 (addr / 2 ^ 22), u16 (bit_and (addr / 2 ^ 12) 0x3ff))

pub get_virt_addr : (pde pte : ℕ) → ℕ
get_virt_addr pde pte = u32 (pde * 0x400000 + pte * page_size)

abbrev pub tab_present : ℕ → Bool
tab_present descriptor = test_bit descriptor 0

pub get_tab_flags : ℕ → ℕ
get_tab_flags table = u16 (bit_and table 0xfff)

pub get_tab_pure_addr : ℕ → ℕ
get_tab_pure_addr table = bit_and table (not32 0xfff)

pub to_phys_addr : (virt_kernel_addr : ℕ) → Option PageDir → Words → ℕ → ℕ
unfolding get_pde_pte get_tab_pure_addr
to_phys_addr virt_kernel_addr none mem virt_addr =
    sub32 virt_addr (if virt_kernel_addr == 0 then 0xC0000000 else virt_kernel_addr)
to_phys_addr virt_kernel_addr (some pd) mem virt_addr =
    let (pde, pte) = get_pde_pte virt_addr in
    let page_offset = bit_and virt_addr 0xfff in
    if pd.page_tables_virt pde == 0
    then 0
    else u32 (get_tab_pure_addr (mem (pd.page_tables_virt pde + pte)) + page_offset)

-- A table from the heap.
pub record NewTable : Type 0 where
  pub table : ℕ
  pub phys : ℕ

-- The effect of `memset` on the words of a table.
pub zero_table : Words → ℕ → Words
zero_table mem table i = if leb table i && ltb i (table + pt_size) then 0 else mem i

-- The entry for the directory; the table is `new.table`.
pub alloc_pt : NewTable → Words → (flags : ℕ) → Words × ℕ
unfolding zero_table
alloc_pt new mem flags = (zero_table mem new.table, bit_or new.phys flags)

-- What `map_alloc_npt` leaves: `pt` is the array of tables that it fills.
pub record Mapped : Type 0 where
  pub pd : PageDir
  pub mem : Words
  pub pt : Words
  pub ret : ℕ

-- The directory without the accessed flag of an entry, if it is set.
unfoldable pub clear_accessed : PageDir → ℕ → PageDir
clear_accessed pd pde =
    if test_bit (pd.page_tables pde) accessed_bit
    then record pd {
      page_tables = write pd.page_tables pde (clear_bit (pd.page_tables pde) accessed_bit);
    }
    else pd

-- Round `n` of the loop and the rounds behind it; the first present entry ends the loop.
pub npt_loop :
    (fresh : ℕ → NewTable) → (rounds n : ℕ) → PageDir → Words → Words → (pde flags : ℕ) → Mapped
unfolding clear_accessed alloc_pt
npt_loop fresh zero n pd mem pt pde flags = record { pd = pd; mem = mem; pt = pt; ret = 0 }
npt_loop fresh (suc k) n pd mem pt pde flags =
    let cur_pde = pde + n in
    let pd1 = clear_accessed pd cur_pde in
    let entry = pd1.page_tables cur_pde in
    let (mem', new_entry) = alloc_pt (fresh n) mem flags in
    let pt' = write pt n (fresh n).table in
    let pd2 = record pd1 { page_tables = write pd1.page_tables cur_pde new_entry } in
    let rest =
      npt_loop fresh k (n + 1)
        (record pd2 { page_tables_virt = write pd2.page_tables_virt cur_pde (pt' 0) }) mem' pt' pde
        flags in
    if ltb pt_size cur_pde
    then record { pd = pd; mem = mem; pt = pt; ret = enomem }
    else if tab_present entry
    then record {
      pd = record pd1 { page_tables = write pd1.page_tables cur_pde (bit_or entry flags) };
      mem = mem;
      pt = write pt n (pd1.page_tables_virt cur_pde);
      ret = 0;
    }
    else if new_entry == 0
    then record { pd = pd2; mem = mem'; pt = pt'; ret = enomem }
    else rest

unfoldable pub map_alloc_npt :
    (fresh : ℕ → NewTable) → PageDir → Words → Words → (npt pde flags : ℕ) → Mapped
unfolding npt_loop
map_alloc_npt fresh pd mem pt npt pde flags = npt_loop fresh npt 0 pd mem pt pde (u16 flags)

unfoldable pub map_alloc_pt :
    (fresh : ℕ → NewTable) → PageDir → Words → Words → (pde flags : ℕ) → Mapped
unfolding map_alloc_npt
map_alloc_pt fresh pd mem pt pde flags = map_alloc_npt fresh pd mem pt 1 pde flags

-- The entry that `get_pd_page` points to.
abbrev pub get_pd_page : PageDir → (pde pte : ℕ) → ℕ
get_pd_page pd pde pte = pd.page_tables_virt pde + pte

abbrev pub pt_present : PageDir → (pde : ℕ) → Bool
pt_present pd pde = tab_present (pd.page_tables pde)

abbrev pub page_present : PageDir → Words → (pde pte : ℕ) → Bool
page_present pd mem pde pte = tab_present (mem (get_pd_page pd pde pte))

pub unmap_page : PageDir → Words → (pde pte : ℕ) → Words
unmap_page pd mem pde pte =
    let at = pd.page_tables_virt pde + pte in write mem at (clear_bit (mem at) 0)

-- `overflow` is an `int`, here as the word to which the sum converts it.
pub unmap_loop : (rounds i : ℕ) → PageDir → Words → (pde pte overflow : ℕ) → Words
unfolding unmap_page
unmap_loop zero i pd mem pde pte overflow = mem
unmap_loop (suc n) i pd mem pde pte overflow =
    let past = leb pt_size (u32 (pte + overflow + i)) in
    let overflow' = if past then sub32 overflow pt_size else overflow in
    let pde' = if past then u16 (pde + 1) else pde in
    let rest =
      unmap_loop n (i + 1) pd (unmap_page pd mem pde' (u16 (overflow' + pte + i))) pde' pte
        overflow' in
    if leb pt_size pde' then mem else rest

unfoldable pub unmap_pages : PageDir → Words → (pde pte npages : ℕ) → Words
unfolding unmap_loop
unmap_pages pd mem pde pte npages = unmap_loop npages 0 pd mem pde pte 0

-- The entries from an index on as an array, and such an array written back.
abbrev pub window : Words → ℕ → Words
window mem at i = mem (at + i)

unfoldable pub put_window : Words → (at count : ℕ) → Words → Words
put_window mem at count out i = if leb at i && ltb i (at + count) then out (i - at) else mem i

-- The state that a page fault changes.
pub record FaultState : Type 0 where
  pub frames : FrameState
  pub pd : PageDir
  pub mem : Words

-- What a call of `find_alloc_frame` for an entry leaves, with its result.
pub store_frame : FaultState → (at : ℕ) → Option Found → Option (FaultState × ℕ)
unfolding put_window
store_frame s at none = none
store_frame s at (some f) = some (
  record s {
    frames = record (s.frames) { frames = f.frames };
    mem = put_window s.mem at 1 f.addrs;
  },
  f.ret,
)

pub frame_into : FaultState → (at : ℕ) → Option (FaultState × ℕ)
unfolding store_frame
frame_into s at = store_frame s at (find_alloc_frame s.frames (window s.mem at) (r_w + present))

-- A success, or the error of the frame allocator.
abbrev pub fault_result : Option (FaultState × ℕ) → Option (FaultState × ℕ)
fault_result none = none
fault_result (some (s, ret)) = some (s, if ret == 0 then 1 else ret)

abbrev pub always_one : Option (FaultState × ℕ) → Option (FaultState × ℕ)
always_one none = none
always_one (some (s, ret)) = some (s, 1)

pub non_present_page_hanler :
    (fresh : ℕ → NewTable) → (pde pte : ℕ) → FaultState → Option (FaultState × ℕ)
unfolding map_alloc_pt frame_into
non_present_page_hanler fresh pde pte s =
    let m = map_alloc_pt fresh s.pd s.mem (λ _. 0) pde (r_w + present) in
    let s' : FaultState = record s { pd = m.pd; mem = m.mem } in
    if not (pt_present s.pd pde)
    then if not (m.ret == 0) then some (s', m.ret) else fault_result (frame_into s' (m.pt 0 + pte))
    else if not (page_present s.pd s.mem pde pte)
    then always_one (frame_into s (get_pd_page s.pd pde pte))
    else some (s, 1)

abbrev pub after_fault : Option (FaultState × ℕ) → Option FaultState
after_fault none = none
after_fault (some (s, ret)) = some s

-- Only an error code that is exactly the present bit keeps the handler from running.
pub page_fault : (fresh : ℕ → NewTable) → (fault_addr error : ℕ) → FaultState → Option FaultState
unfolding non_present_page_hanler get_pde_pte
page_fault fresh fault_addr error s =
    let (pde, pte) = get_pde_pte fault_addr in
    if error == present then some s else after_fault (non_present_page_hanler fresh pde pte s)
