-- ===== src/Buddy/Tests.antt =====
-- The buddy allocator at concrete states.
use xanadu_os.Base.{
  ℕ, ◌-◌, ◌*◌, ◌%◌, ◌^◌, ◌≤◌, ◌<◌, ◌≡◌, refl, Option, some, none, [], ◌∷◌, arith, ◌==◌,
  if◌then◌else◌,
}
use xanadu_os.Base.Words.{sub32, set_bit, test_bit, clear_bit}
use xanadu_os.Base.Memory.{update, write}
use xanadu_os.Buddy.{
  Buddy, Outcome, linked, block, addr_to_map_id, map_to_addr, map_offset, map_word, get_buddy_order,
  buddy_alloc_frames_max_order, buddy_alloc_frames, buddy_coalesce, buddy_alloc_create,
  set_frame_used, get_buddy_map_size, buddy_free_frame, is_frame_free, remove_free_frame,
  insert_buddy, set_frame_unused,
}
use xanadu_os.Buddy.Order.{get_buddy_order_least}
use xanadu_os.Buddy.Address.{map_to_addr-addr_to_map_id}
use xanadu_os.Buddy.Alloc.{IsValid, Result, buddy_alloc_frames_max_order_lem}
use xanadu_os.Buddy.Clone.{buddy_alloc_clone, all_nodes, buddy_alloc_clone_lem}
use xanadu_os.Buddy.Layout.{maps_overlap, kernel_maps_out_of_bounds}

-- 8 MiB from address 0 on, of which the second half is a free block; two nodes more than a cut takes.
abbrev half_free : Buddy
half_free = record {
  mem_size = 0x800000;
  mem_start = 0;
  nodes = 12;
  lists = update (λ _. []) 10 (0x400000 ∷ []);
  num_free = update (λ _. 0) 10 1;
  map_base = λ o. map_offset o 0x800000;
  map_data = λ _. 0;
}

half_free-IsValid : IsValid half_free
half_free-IsValid = record { counted = λ o. ground arith }

get_buddy_order_least_example :
    (get_buddy_order 5 ≤ 10)
    × (5 ≤ 2 ^ get_buddy_order 5)
    × (0 < get_buddy_order 5 → 2 ^ (get_buddy_order 5 - 1) < 5)
get_buddy_order_least_example = get_buddy_order_least 5 (omega arith)

map_to_addr-addr_to_map_id_example :
    ((addr_to_map_id 3 0xD0012345).frame < 32)
    × (map_to_addr 3 (addr_to_map_id 3 0xD0012345) ≡ 0xD0012345 - 0xD0012345 % block 3)
map_to_addr-addr_to_map_id_example =
    map_to_addr-addr_to_map_id 3 0xD0012345 (omega arith) (omega arith)

buddy_alloc_frames_max_order_example :
    (r : Buddy × Outcome) × (buddy_alloc_frames_max_order half_free 3 ≡ some r)
    × Result (get_buddy_order 3) (get_buddy_order 3) half_free r
buddy_alloc_frames_max_order_example =
    buddy_alloc_frames_max_order_lem half_free 3 half_free-IsValid (omega arith)

abbrev created : Option Buddy
created = buddy_alloc_create 20 [] 0x100000 0x900000

abbrev new_buddy : Buddy
new_buddy = record {
  mem_size = 0x800000;
  mem_start = 0x100000;
  nodes = 18;
  lists = update (λ _. []) 10 (0x100000 ∷ 0x500000 ∷ []);
  num_free = update (λ _. 0) 10 2;
  map_base = λ o. map_offset o 0x800000;
  map_data = λ _. 0;
}

created_is : created ≡ some new_buddy
unfolding buddy_alloc_create
created_is = refl

-- In 8 MiB an order-0 map needs 64 words; word 16 + 3 of it is word 3 of the map of order 1.
maps_overlap_example :
    map_word (set_frame_used half_free 0 0x260000) 1 3
    ≡ set_bit (map_word half_free 1 3) (addr_to_map_id 0 0x260000).frame
unfolding addr_to_map_id
maps_overlap_example = maps_overlap half_free 0 0x260000 3 refl refl refl

kernel_maps_out_of_bounds_example :
    get_buddy_map_size (sub32 0xFFFF_FFFF 0xD000_0000) < (addr_to_map_id 0 0xD000_0000).frame_map
kernel_maps_out_of_bounds_example = kernel_maps_out_of_bounds 0xD000_0000 (omega arith)

-- Page 1 is used and page 0 free; so is the pair of pages behind them used.
abbrev odd_used : Buddy
odd_used = record {
  mem_size = 0x800000;
  mem_start = 0;
  nodes = 12;
  lists = update (λ _. []) 0 (0 ∷ []);
  num_free = update (λ _. 0) 0 1;
  map_base = λ o. 1000 * o;
  map_data = λ i. if i == 0 then 2 else if i == 1000 then 2 else 0;
}

-- Releasing page 1 merges it with page 0, and ends.
released : (b : Buddy) × (buddy_coalesce odd_used 0 0x1000 ≡ some b)
unfolding buddy_coalesce remove_free_frame insert_buddy set_frame_unused is_frame_free
    addr_to_map_id map_to_addr test_bit clear_bit write
released = (_, refl)

-- The merged block of two pages is listed at page 1, so that it reaches over page 2.
released_at_odd_page : released.0.lists 1 ≡ 0x1000 ∷ []
unfolding released
released_at_odd_page = refl

-- The range of a user task: the first page is allocated, and its release reads through NULL.
user_range : Option Buddy
unfolding buddy_alloc_create buddy_alloc_frames buddy_alloc_frames_max_order buddy_free_frame
    buddy_coalesce remove_free_frame insert_buddy set_frame_unused is_frame_free addr_to_map_id
    map_to_addr test_bit clear_bit set_bit write
user_range = elim (buddy_alloc_create 300 [] 0x100000 0x40000000) [
  | none ↦ some half_free
  | some b ↦ elim (buddy_alloc_frames b (λ _. 0) 1) [
    | none ↦ some half_free
    | some (b', addrs, ret) ↦ buddy_free_frame b' (addrs 0)
  ]
]

user_range_faults : user_range ≡ none
unfolding user_range
user_range_faults = refl

buddy_alloc_clone_lem_example :
    (b : Buddy) × (buddy_alloc_clone 5 (λ o. 9 ∷ []) half_free ≡ some b)
    × (b.mem_size ≡ 0x800000)
    × (b.mem_start ≡ 0)
    × ((order : ℕ)
        → order < 11
        → (b.lists order ≡ linked (9 ∷ []) (half_free.lists order))
          × (b.num_free order ≡ half_free.num_free order))
    × ((i : ℕ) → i < get_buddy_map_size 0x800000 → b.map_data i ≡ 0)
unfolding all_nodes map_offset
buddy_alloc_clone_lem_example = buddy_alloc_clone_lem 5 (λ o. 9 ∷ []) half_free (omega arith) refl
