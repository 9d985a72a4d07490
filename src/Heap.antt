-- ===== src/Heap.antt =====
-- mem/allocator.c, the heap of the kernel. The headers of the blocks are in memory by their address, 0
-- for NULL, apart from the data that the owners of the blocks write. `mapped` is the result of
-- `mmap_pages` for an address and a number of pages; `none` is a panic, a dereference of NULL or fuel
-- run out. The messages and the tests are left out.
pub mod Fit
pub mod Split
mod Tests
use xanadu_os.Base.{
  ℕ, zero, suc, ◌+◌, ◌-◌, ◌*◌, ◌/◌, ◌%◌, ◌^◌, Bool, true, false, ◌&&◌, ◌||◌, not, Option, none,
  some, leb, ltb, ◌==◌, if◌then◌else◌,
}
use xanadu_os.Base.Words.{u32, sub32}
use xanadu_os.Base.Memory.{update}
use xanadu_os.Frames.{page_size}
use xanadu_os.Paging.{pt_size}
use xanadu_os.Mmap.{div_align_up}

abbrev pub block_header_magic_num : ℕ
block_header_magic_num = 0x0BADBABA

abbrev pub map_critical_dist : ℕ
map_critical_dist = 0x100000

abbrev pub heap_align : ℕ
heap_align = 16

-- The size of `struct block_header`.
abbrev pub header_size : ℕ
header_size = 32

-- `struct block_header`.
pub record Header : Type 0 where
  pub magic_num : ℕ
  pub next : ℕ
  pub prev : ℕ
  pub next_hole : ℕ
  pub size : ℕ
  pub is_hole : Bool

pub record Heap : Type 0 where
  pub blocks : ℕ → Header
  pub heap_base_addr : ℕ
  pub heap_end_addr : ℕ

abbrev pub align_up : (num alignment : ℕ) → ℕ
align_up num alignment =
    u32 (num - num % alignment + (if num % alignment == 0 then 0 else alignment))

pub heap_init : (map_limit heap_base : ℕ) → (memory : ℕ → Header) → Heap
heap_init map_limit heap_base memory = record {
  blocks = update memory heap_base (record {
    magic_num = block_header_magic_num;
    next = 0;
    prev = 0;
    next_hole = 0;
    size = sub32 map_limit heap_base;
    is_hole = true;
  });
  heap_base_addr = heap_base;
  heap_end_addr = map_limit;
}

-- The heap with a change of one header.
abbrev pub set_block : Heap → (addr : ℕ) → Header → Heap
set_block s addr h = record s { blocks = update s.blocks addr h }

pub expand_heap : (mapped : ℕ → ℕ → ℕ) → (header pt_num : ℕ) → Heap → Heap × ℕ
expand_heap mapped header pt_num s =
    let h = s.blocks header in
    let s' = set_block s header (record h { size = u32 (h.size + pt_size * page_size) }) in
    (
      record s' { heap_end_addr = u32 (s.heap_end_addr + pt_size * page_size) },
      mapped s.heap_end_addr (u32 (pt_size * pt_num)),
    )

-- Whether a new block is cut off behind the data.
abbrev pub cuts : Header → (size : ℕ) → Bool
cuts h size = h.next == 0 || leb (u32 (size + 3 * header_size)) h.size

-- `(void *)0xFFFFFFFF` stands for NULL.
abbrev pub or_null : ℕ → ℕ
or_null addr = if addr == 0xFFFFFFFF then 0 else addr

-- The header of the block that is cut off.
abbrev pub new_block : Heap → (header size data_base : ℕ) → Header
new_block s header size data_base = record {
  magic_num = block_header_magic_num;
  next = or_null (s.blocks header).next;
  prev = header;
  next_hole = or_null (s.blocks header).next_hole;
  size = sub32 (sub32 s.heap_end_addr data_base) size;
  is_hole = true;
}

-- The first block, whose list of holes begins with the new block if it was empty or began with the
-- one that is cut.
abbrev pub hole_listed : Heap → (header new : ℕ) → Heap
hole_listed s header new =
    let first = s.blocks s.heap_base_addr in
    if first.next_hole == 0 || first.next_hole == header
    then set_block s s.heap_base_addr (record first { next_hole = new })
    else s

pub cut_block : Heap → (header size data_base : ℕ) → Heap
cut_block s header size data_base =
    let new = u32 (data_base + size) in
    let s1 = hole_listed s header new in
    let s2 = set_block s1 new (new_block s1 header size data_base) in
    set_block s2 header (record (s2.blocks header) { next = new; next_hole = new })

-- The block of the header as one that is allocated.
abbrev pub claimed : Heap → (header size : ℕ) → Heap
claimed s header size =
    set_block s header
      (record (s.blocks header) { is_hole = false; size = u32 (size + header_size) })

abbrev pub expanded : (data_base : ℕ) → Heap × ℕ → Option (Heap × ℕ)
expanded data_base (s, ret) = if ret == 0 then some (s, data_base) else none

-- The end of `do_alloc`: the heap grows when the next block is near its end.
pub claim : (mapped : ℕ → ℕ → ℕ) → (header data_base : ℕ) → Heap → Option (Heap × ℕ)
unfolding expand_heap
claim mapped header data_base s =
    if ltb (sub32 s.heap_end_addr map_critical_dist) (s.blocks header).next
    then expanded data_base (expand_heap mapped header 1 s)
    else some (s, data_base)

pub do_alloc : (mapped : ℕ → ℕ → ℕ) → (header size data_base : ℕ) → Heap → Option (Heap × ℕ)
unfolding cut_block claim
do_alloc mapped header size data_base s =
    let s1 = if cuts (s.blocks header) size then cut_block s header size data_base else s in
    claim mapped header data_base (claimed s1 header size)

abbrev pub get_data_base : (header : ℕ) → ℕ
get_data_base header = u32 (header + header_size)

-- The address of the data in a block.
abbrev pub data_in : (header alignment : ℕ) → ℕ
data_in header alignment = align_up (get_data_base header) alignment

abbrev pub fits : Heap → (header size alignment : ℕ) → Bool
fits s header size alignment =
    (s.blocks header).is_hole
    && leb (u32 (size + sub32 (data_in header alignment) header)) (s.blocks header).size

-- The search among the holes: the first that fits, or the last one seen.
pub data Hole : Type 0 where
  fitting : ℕ → Hole
  last_seen : ℕ → Hole
  out_of_fuel : Hole

pub find_hole : (fuel : ℕ) → Heap → (header last size alignment : ℕ) → Hole
find_hole zero s header last size alignment = out_of_fuel
find_hole (suc n) s header last size alignment =
    let rest = find_hole n s (s.blocks header).next_hole header size alignment in
    if header == 0
    then last_seen last
    else if fits s header size alignment
    then fitting header
    else rest

-- What is done with the result of the search. Behind it `header` is NULL, so the data of an expanded
-- heap is placed at the address 32.
pub alloc_at : (mapped : ℕ → ℕ → ℕ) → (size alignment : ℕ) → Heap → Hole → Option (Heap × ℕ)
unfolding do_alloc expand_heap
alloc_at mapped size alignment s (fitting header) =
    do_alloc mapped header size (data_in header alignment) s
alloc_at mapped size alignment s (last_seen last) =
    let (s', ret) = expand_heap mapped last (u32 (div_align_up size (pt_size * page_size) * 2)) s in
    if ret == 0 then do_alloc mapped last size (get_data_base 0) s' else none
alloc_at mapped size alignment s out_of_fuel = none

abbrev pub alignment_of : ℕ → ℕ
alignment_of alignment = if alignment == 0 then 1 else alignment

pub kmalloc_align : (mapped : ℕ → ℕ → ℕ) → (fuel siz alignment : ℕ) → Heap → Option (Heap × ℕ)
unfolding alloc_at find_hole
kmalloc_align mapped fuel siz alignment s =
    let a = alignment_of alignment in
    let size = align_up siz a in
    if siz == 0
    then some (s, 0)
    else alloc_at mapped size a s (find_hole fuel s s.heap_base_addr 0 size a)

pub kmalloc : (mapped : ℕ → ℕ → ℕ) → (fuel siz : ℕ) → Heap → Option (Heap × ℕ)
unfolding kmalloc_align
kmalloc mapped fuel siz s = kmalloc_align mapped fuel siz heap_align s

-- The last hole before a header; behind the last of the list NULL is dereferenced.
pub hole_before : (fuel : ℕ) → Heap → (prev_hole header : ℕ) → Option ℕ
hole_before zero s prev_hole header = none
hole_before (suc n) s prev_hole header =
    let next = (s.blocks prev_hole).next_hole in
    let rest = hole_before n s next header in
    if not (ltb next header) then some prev_hole else if next == 0 then none else rest

-- A released block in the list of holes.
abbrev pub listed_behind : Heap → (header : ℕ) → Option ℕ → Option Heap
listed_behind s header none = none
listed_behind s header (some prev_hole) =
    let s' =
      set_block s header
        (record (s.blocks header) { next_hole = (s.blocks prev_hole).next_hole }) in
    some (set_block s' prev_hole (record (s'.blocks prev_hole) { next_hole = header }))

pub list_hole : (fuel : ℕ) → (header : ℕ) → Heap → Option Heap
unfolding hole_before
list_hole fuel header s =
    let first = s.blocks s.heap_base_addr in
    let s1 = set_block s header (record (s.blocks header) { next_hole = first.next_hole }) in
    if ltb header first.next_hole
    then some
        (set_block s1 s.heap_base_addr (record (s1.blocks s.heap_base_addr) { next_hole = header }))
    else listed_behind s header (hole_before fuel s s.heap_base_addr header)

-- The block joined with the one behind it, when that is a hole.
pub join_next : (header : ℕ) → Heap → Heap
join_next header s =
    let h = s.blocks header in
    let n = s.blocks h.next in
    let s1 =
      set_block s header (record h { size = u32 (h.size + n.size); next_hole = n.next_hole }) in
    let s2 = set_block s1 h.next (record (s1.blocks h.next) { magic_num = 0 }) in
    let s3 =
      if n.next == 0
      then s2
      else set_block s2 h.next (record (s2.blocks h.next) { prev = header }) in
    if not (h.next == 0) && n.is_hole
    then set_block s3 header (record (s3.blocks header) { next = n.next })
    else s

-- The same with the block before it.
pub join_prev : (header : ℕ) → Heap → Heap
join_prev header s =
    let h = s.blocks header in
    let p = s.blocks h.prev in
    let s1 =
      set_block s h.prev
        (record p { next = h.next; size = u32 (p.size + h.size); next_hole = h.next_hole }) in
    let s2 = set_block s1 header (record (s1.blocks header) { magic_num = 0 }) in
    if not (h.prev == 0) && p.is_hole
    then if h.next == 0
      then s2
      else set_block s2 h.next (record (s2.blocks h.next) { prev = h.prev })
    else s

abbrev pub joined : (header : ℕ) → Option Heap → Option Heap
joined header none = none
joined header (some s) = some (join_prev header (join_next header s))

pub kfree : (fuel addr : ℕ) → Heap → Option Heap
unfolding list_hole join_next join_prev
kfree fuel addr s =
    let header = sub32 addr header_size in
    let released = set_block s header (record (s.blocks header) { is_hole = true }) in
    if addr == 0 || ltb s.heap_end_addr addr || ltb addr s.heap_base_addr
    then some s
    else if not ((s.blocks header).magic_num == block_header_magic_num)
    then some s
    else joined header (list_hole fuel header released)

pub check_block_size : (addr : ℕ) → Heap → ℕ
check_block_size addr s =
    let h = s.blocks (sub32 addr header_size) in
    if addr == 0 || ltb s.heap_end_addr addr || ltb addr s.heap_base_addr
    then 0
    else if not (h.magic_num == block_header_magic_num)
    then 0
    else if h.is_hole
    then 0
    else h.size
