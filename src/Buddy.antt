-- ===== src/Buddy.antt =====
-- mem/buddy_frame_alloc.c, the buddy allocator of virtual page ranges. A free list is the list of
-- the addresses of its nodes; the nodes come from the slab cache `fl_slab`, of which only the number
-- of nodes that it can still give is kept. `maps[order]` points into one array: it is the array
-- with an offset. A dereference of NULL, or of a pointer behind `maps`, is `none`.
pub mod Order
pub mod Address
pub mod Slice
pub mod Alloc
pub mod Free
pub mod Layout
pub mod Clone
mod Tests
use xanadu_os.Base.{
  ℕ, zero, suc, ◌+◌, ◌-◌, ◌*◌, ◌/◌, ◌%◌, ◌^◌, Bool, true, false, ◌&&◌, not, Option, none, some,
  List, [], ◌∷◌, ◌++◌, ltb, leb, ◌==◌, if◌then◌else◌,
}
use xanadu_os.Base.Words.{u8, u32, sub32, test_bit, set_bit, clear_bit}
use xanadu_os.Base.Memory.{Words, write, update}
use xanadu_os.Base.Errors.{einval, enomem}
use xanadu_os.Frames.{FrameMapAddr, page_size}

abbrev pub max_order : ℕ
max_order = 11

abbrev pub map_size : ℕ
map_size = 32

abbrev pub max_buddy_nframes : ℕ
max_buddy_nframes = 1024

abbrev pub max_buddy_size : ℕ
max_buddy_size = 0x400000

-- `struct buddy_alloc`: `free_area[order]` is `lists order` and `num_free order`; `nodes` stands for
-- the slab cache.
pub record Buddy : Type 0 where
  pub mem_size : ℕ
  pub mem_start : ℕ
  pub nodes : ℕ
  pub lists : ℕ → List ℕ
  pub num_free : ℕ → ℕ
  pub map_base : ℕ → ℕ
  pub map_data : Words

abbrev pub block : ℕ → ℕ
block order = page_size * 2 ^ order

pub order_loop : (rounds order nframes : ℕ) → ℕ
order_loop zero order nframes = max_order - 1
order_loop (suc n) order nframes =
    let rest = order_loop n (order + 1) nframes in if leb nframes (2 ^ order) then order else rest

pub get_buddy_order : ℕ → ℕ
unfolding order_loop
get_buddy_order nframes =
    if ltb max_buddy_nframes nframes then max_order - 1 else order_loop max_order 0 nframes

unfoldable pub is_frame_free : (bitmap frame : ℕ) → Bool
is_frame_free bitmap frame = not (test_bit bitmap frame)

-- A failed allocation leaves the list empty: its head has been overwritten by then.
unfoldable pub insert_buddy : Buddy → (order addr : ℕ) → Buddy × ℕ
insert_buddy b order addr =
    if b.nodes == 0 then (record b { lists = update b.lists order [] }, enomem) else (
      record b {
        nodes = b.nodes - 1;
        lists = update b.lists order (addr ∷ b.lists order);
        num_free = update b.num_free order (b.num_free order + 1);
      },
      0,
    )

-- The list without its first block that holds `addr`; `none` when there is no such block.
pub unlink : (order addr : ℕ) → List ℕ → Option (List ℕ)
unlink order addr [] = none
unlink order addr (a ∷ l) =
    let rest = unlink order addr l in
    if ltb addr (u32 (a + block order)) && leb a addr
    then some l
    else elim rest [ none ↦ none | some l' ↦ some (a ∷ l') ]

unfoldable pub remove_free_frame : Buddy → (order addr : ℕ) → Option Buddy
unfolding unlink
remove_free_frame b order addr =
    if b.num_free order == 0 then some b else elim (unlink order addr (b.lists order)) [
      | none ↦ none
      | some l ↦ some (record b {
        nodes = b.nodes + 1;
        lists = update b.lists order l;
        num_free = update b.num_free order (b.num_free order - 1);
      })
    ]

-- `slab_free` of NULL does nothing.
abbrev pub behind_head : List ℕ → List ℕ
behind_head [] = []
behind_head (a ∷ l) = l

abbrev pub head_nodes : List ℕ → ℕ
head_nodes [] = 0
head_nodes (a ∷ l) = 1

pub remove_free_head : Buddy → (order : ℕ) → Buddy
remove_free_head b order = if b.num_free order == 0 then b else record b {
  nodes = b.nodes + head_nodes (b.lists order);
  lists = update b.lists order (behind_head (b.lists order));
  num_free = update b.num_free order (b.num_free order - 1);
}

unfoldable pub addr_to_map_id : (order addr : ℕ) → FrameMapAddr
addr_to_map_id order addr =
    let frame_map = addr / (page_size * map_size * 2 ^ order) in
    record {
      frame_map = frame_map;
      frame = (addr - frame_map * (page_size * map_size * 2 ^ order)) / (2 ^ order * page_size);
    }

unfoldable pub map_to_addr : (order : ℕ) → FrameMapAddr → ℕ
map_to_addr order map = u32 (
    u32 (map.frame_map * map_size * page_size * 2 ^ order)
    + u32 (map.frame * page_size * 2 ^ order))

-- The word `maps[order][frame_map]`.
abbrev pub map_word : Buddy → (order frame_map : ℕ) → ℕ
map_word b order frame_map = b.map_data (b.map_base order + frame_map)

unfoldable pub set_frame_unused : Buddy → (order addr : ℕ) → Buddy
unfolding addr_to_map_id
set_frame_unused b order addr =
    let id = addr_to_map_id order addr in
    record b {
      map_data =
          write b.map_data (b.map_base order + id.frame_map)
            (clear_bit (map_word b order id.frame_map) id.frame);
    }

pub set_frame_used : Buddy → (order addr : ℕ) → Buddy
unfolding addr_to_map_id
set_frame_used b order addr =
    let id = addr_to_map_id order addr in
    record b {
      map_data =
          write b.map_data (b.map_base order + id.frame_map)
            (set_bit (map_word b order id.frame_map) id.frame);
    }

-- `start` is at least 1; the recursive call of the source is for `start - 1`.
pub buddy_slice : (start : ℕ) → Buddy → (addr target : ℕ) → Buddy × Option ℕ
buddy_slice zero b addr target = (b, none)
buddy_slice (suc s) b addr target =
    let b' = set_frame_used b (suc s) addr in
    let (b'', err) = insert_buddy b' s (u32 (addr + block (suc s) / 2)) in
    let deeper = buddy_slice s b'' addr target in
    if not (err == 0)
    then (b'', none)
    else if ltb target s
    then deeper
    else (set_frame_used b'' target addr, some addr)

-- What an allocation leaves: the allocator, and the address or an error code.
pub data Outcome : Type 0 where
  allocated : ℕ → Outcome
  failed : ℕ → Outcome

-- The search in the orders above, `rounds` of them from `i`.
pub upper_loop : (rounds i : ℕ) → Buddy → (order : ℕ) → Buddy × Outcome
upper_loop zero i b order = (b, failed enomem)
upper_loop (suc n) i b order =
    let next = upper_loop n (i + 1) b order in
    let reset = upper_loop n (i + 1) (record b { num_free = update b.num_free i 0 }) order in
    if b.num_free i == 0 then next else elim (b.lists i) [
      | [] ↦ reset
      | a ∷ l ↦
          let (b', r) = buddy_slice i (remove_free_head b i) a order in
          elim r [ none ↦ (b', failed 1) | some addr ↦ (b', allocated addr) ]
    ]

unfoldable pub buddy_alloc_frames_max_order : Buddy → (nframes : ℕ) → Option (Buddy × Outcome)
unfolding get_buddy_order remove_free_head set_frame_used upper_loop buddy_slice insert_buddy
buddy_alloc_frames_max_order b nframes =
    let order = get_buddy_order nframes in
    if b.num_free order == 0
    then some (upper_loop (max_order - 1 - order) (order + 1) b order)
    else elim (b.lists order) [
      | [] ↦ none
      | a ∷ l ↦ some (set_frame_used (remove_free_head b order) order a, allocated a)
    ]

-- Round `i` serves up to 1024 frames and writes the address to entry `i * 1024`.
pub alloc_loop : (rounds i : ℕ) → Buddy → Words → (nframes : ℕ) → Option (Buddy × Words × ℕ)
alloc_loop zero i b addrs nframes = some (b, addrs, 0)
alloc_loop (suc n) i b addrs nframes =
    let left = sub32 nframes (i * max_buddy_nframes) in
    let cur = if ltb max_buddy_nframes left then max_buddy_nframes else left in
    elim (buddy_alloc_frames_max_order b cur) [
      | none ↦ none
      | some (b', failed e) ↦ some (b', addrs, e)
      | some (b', allocated a) ↦
          alloc_loop n (i + 1) b' (write addrs (i * max_buddy_nframes) a) nframes
    ]

-- With `addrs` not null.
unfoldable pub buddy_alloc_frames : Buddy → Words → (nframes : ℕ) → Option (Buddy × Words × ℕ)
unfolding alloc_loop
buddy_alloc_frames b addrs nframes =
    let rep_limit =
      if nframes % max_buddy_nframes == 0
      then nframes / max_buddy_nframes
      else nframes / max_buddy_nframes + 1 in
    alloc_loop rep_limit 0 b addrs nframes

pub buddy_alloc_frame : Buddy → Words → Option (Buddy × Words × ℕ)
unfolding buddy_alloc_frames
buddy_alloc_frame b addr = buddy_alloc_frames b addr 1

abbrev pub buddy_frame : ℕ → ℕ
buddy_frame frame = if frame % 2 == 0 then u8 (frame + 1) else u8 (frame - 1)

-- `rounds` is the number of orders above `order`; the last order does not coalesce.
pub coalesce_loop : (rounds order : ℕ) → Buddy → (addr : ℕ) → Option Buddy
coalesce_loop zero order b addr = some (insert_buddy (set_frame_unused b order addr) order addr).0
coalesce_loop (suc n) order b addr =
    let map = addr_to_map_id order addr in
    let mate = record map { frame = buddy_frame map.frame } in
    let b' = set_frame_unused b order addr in
    if is_frame_free (map_word b' order map.frame_map) mate.frame
    then elim (remove_free_frame b' order (map_to_addr order mate)) [
      | none ↦ none
      | some b'' ↦ coalesce_loop n (order + 1) b'' addr
    ]
    else some (insert_buddy b' order addr).0

unfoldable pub buddy_coalesce : Buddy → (order addr : ℕ) → Option Buddy
unfolding coalesce_loop
buddy_coalesce b order addr = coalesce_loop (max_order - 1 - order) order b addr

-- `rounds` is the number of orders from `order` on; behind them `maps` ends.
pub free_loop : (rounds order : ℕ) → Buddy → (addr : ℕ) → Option Buddy
free_loop zero order b addr = none
free_loop (suc n) order b addr =
    let map = addr_to_map_id order addr in
    let rest = free_loop n (order + 1) b addr in
    if not (is_frame_free (map_word b order map.frame_map) map.frame)
    then buddy_coalesce b order addr
    else rest

unfoldable pub buddy_free_frames : Buddy → (addr nframes : ℕ) → Option Buddy
unfolding free_loop get_buddy_order
buddy_free_frames b addr nframes =
    let order = get_buddy_order nframes in free_loop (max_order - order) order b addr

pub buddy_free_frame : Buddy → (addr : ℕ) → Option Buddy
unfolding buddy_free_frames
buddy_free_frame b addr = buddy_free_frames b addr 1

pub map_size_loop : (rounds i mem_size acc : ℕ) → ℕ
map_size_loop zero i mem_size acc = acc
map_size_loop (suc n) i mem_size acc =
    let factor = page_size * map_size * 2 ^ i in
    let acc' = acc + mem_size / factor in
    map_size_loop n (i + 1) mem_size (if mem_size % factor == 0 then acc' else acc' + 1)

pub get_buddy_map_size : ℕ → ℕ
unfolding map_size_loop
get_buddy_map_size mem_size = map_size_loop max_order 0 mem_size 0

-- The offset of `maps[order]`: `sizeof(map_data)` is the size of a pointer, 4.
pub map_offset : (order mem_size : ℕ) → ℕ
map_offset zero mem_size = 0
map_offset (suc order) mem_size =
    map_offset order mem_size + mem_size / (page_size * map_size * 2 ^ order * 4)

-- The blocks of the highest order, from the start of the memory on.
pub initial_blocks : (rounds i mem_start : ℕ) → List ℕ
initial_blocks zero i mem_start = []
initial_blocks (suc n) i mem_start =
    u32 (mem_start + i * max_buddy_size) ∷ initial_blocks n (i + 1) mem_start

-- A list of new nodes, of which nothing writes the `next` of the last: `stale` is the list that it leads
-- to, since the slab cache does not clear its memory.
pub linked : (stale : List ℕ) → List ℕ → List ℕ
linked stale [] = []
linked stale (a ∷ l) = a ∷ (l ++ stale)

-- `nodes` is what the new slab cache can give; NULL when `mem_limit` is 0 or the nodes run out.
pub buddy_alloc_create : (nodes : ℕ) → (stale : List ℕ) → (mem_start mem_limit : ℕ) → Option Buddy
unfolding map_offset initial_blocks linked
buddy_alloc_create nodes stale mem_start mem_limit =
    let mem_size = sub32 mem_limit mem_start in
    let count = mem_size / max_buddy_size in
    if mem_limit == 0
    then none
    else if ltb nodes count
    then none
    else some (record {
      mem_size = mem_size;
      mem_start = mem_start;
      nodes = nodes - count;
      lists = update (λ _. []) (max_order - 1) (linked stale (initial_blocks count 0 mem_start));
      num_free = update (λ _. 0) (max_order - 1) count;
      map_base = λ order. map_offset order mem_size;
      map_data = λ _. 0;
    })
