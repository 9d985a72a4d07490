-- ===== src/Buddy/Layout.antt =====
-- `buddy_alloc_create`: the free lists that it builds, and where the maps of the orders lie.
use mathlib.Core.List.{append-nil}
use xanadu_os.Base.{
  ℕ, zero, suc, ◌+◌, ◌*◌, ◌/◌, ◌^◌, ◌≤◌, ◌<◌, ◌≡◌, ◌∙◌, refl, ap, sym, some, arith, length, List,
  [], ◌∷◌,
}
use xanadu_os.Base.Words.{sub32, set_bit}
use xanadu_os.Base.Memory.{write, write_same}
use xanadu_os.Buddy.{
  Buddy, linked, addr_to_map_id, map_word, map_offset, get_buddy_map_size, initial_blocks,
  set_frame_used, buddy_alloc_create,
}
use xanadu_os.Buddy.Slice.{free_frames}
use xanadu_os.Buddy.Alloc.{IsValid}

length-initial_blocks : (n i start : ℕ) → length (initial_blocks n i start) ≡ n
unfolding initial_blocks
length-initial_blocks zero i start = refl
length-initial_blocks (suc n) i start = ap suc (length-initial_blocks n (i + 1) start)

length-linked : (l : List ℕ) → length (linked [] l) ≡ length l
unfolding linked
length-linked [] = refl
length-linked (a ∷ l) = ap (λ k. suc (length k)) (append-nil l)

-- A new allocator, whose last node leads to nothing, has right counts, and its free frames are those of the whole 4 MiB blocks that
-- fit between the two addresses.
pub buddy_alloc_create_lem :
    (nodes mem_start mem_limit : ℕ) {b : Buddy}
    → buddy_alloc_create nodes [] mem_start mem_limit ≡ some b
    → IsValid b × (free_frames 11 b.lists ≡ 1024 * (sub32 mem_limit mem_start / 0x400000))
unfolding buddy_alloc_create free_frames
buddy_alloc_create_lem nodes mem_start mem_limit {b} e =
    let count = sub32 mem_limit mem_start / 0x400000 in
    (
      record {
        counted = λ o. ground (
          arith,
          length-linked (initial_blocks count 0 mem_start),
          length-initial_blocks count 0 mem_start,
        );
      },
      ground (
        arith,
        length-linked (initial_blocks count 0 mem_start),
        length-initial_blocks count 0 mem_start,
      ),
    )

-- The map of an order is given a quarter of the words that its blocks need: the offset of the next
-- map counts words in bytes. Marking a block whose word lies behind that quarter writes the word
-- of the next order's map at the same distance, and a block of the next order counts as used.
pub maps_overlap :
    (b : Buddy) (order addr k : ℕ)
    → b.map_base order ≡ map_offset order b.mem_size
    → b.map_base (suc order) ≡ map_offset (suc order) b.mem_size
    → (addr_to_map_id order addr).frame_map ≡ b.mem_size / (131072 * 2 ^ order * 4) + k
    → map_word (set_frame_used b order addr) (suc order) k
      ≡ set_bit (map_word b (suc order) k) (addr_to_map_id order addr).frame
unfolding set_frame_used map_offset
maps_overlap b order addr k here next place =
    let id = addr_to_map_id order addr in
    let same : b.map_base (suc order) + k ≡ b.map_base order + id.frame_map = omega arith in
    let v = set_bit (map_word b order id.frame_map) id.frame in
    ap (write b.map_data (b.map_base order + id.frame_map) v) same
    ∙ write_same b.map_data (b.map_base order + id.frame_map) v
    ∙ ap (λ j. set_bit (b.map_data j) id.frame) (sym same)

-- The kernel's own allocator, for 0xD0000000 to 0xFFFFFFFF: the places of its addresses are counted
-- from address 0, so at order 0 every one of them lies behind all the words that the maps have.
pub kernel_maps_out_of_bounds :
    (addr : ℕ)
    → 0xD000_0000 ≤ addr
    → get_buddy_map_size (sub32 0xFFFF_FFFF 0xD000_0000) < (addr_to_map_id 0 addr).frame_map
unfolding get_buddy_map_size addr_to_map_id
kernel_maps_out_of_bounds addr h = omega arith
