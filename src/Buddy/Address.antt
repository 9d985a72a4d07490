-- ===== src/Buddy/Address.antt =====
-- Addresses and places in the maps, and the mate of a block.
use xanadu_os.Base.{ℕ, suc, ◌+◌, ◌-◌, ◌/◌, ◌%◌, ◌^◌, ◌≤◌, ◌<◌, ◌≡◌, arith, ◌==◌, if◌then◌else◌}
use xanadu_os.Buddy.{addr_to_map_id, map_to_addr, block, buddy_frame}
use xanadu_os.Buddy.Order.{each_order}

abbrev RoundTrip : ℕ → ℕ → Type 0
RoundTrip addr order =
    ((addr_to_map_id order addr).frame < 32)
    × (map_to_addr order (addr_to_map_id order addr) ≡ addr - addr % block order)

-- At every order the place of an address lies within a word, and leads back to the start of the
-- block that holds the address.
pub map_to_addr-addr_to_map_id :
    (order addr : ℕ)
    → order ≤ 10
    → addr < 2 ^ 32
    → ((addr_to_map_id order addr).frame < 32)
      × (map_to_addr order (addr_to_map_id order addr) ≡ addr - addr % block order)
unfolding addr_to_map_id map_to_addr
map_to_addr-addr_to_map_id order addr h lt = each_order (RoundTrip addr) (omega arith) order h

-- The address that `buddy_coalesce` looks for: that of the other half of the block of the next order.
pub mate_addr : (order addr : ℕ) → ℕ
mate_addr order addr =
    let map = addr_to_map_id order addr in
    map_to_addr order (record map { frame = buddy_frame map.frame })

abbrev Mate : ℕ → ℕ → Type 0
Mate addr order =
    let start = addr - addr % block order in
    (mate_addr order addr
      ≡ (if addr / block order % 2 == 0 then start + block order else start - block order))
    × (mate_addr order addr / block (suc order) ≡ addr / block (suc order))
    × (mate_addr order (mate_addr order addr) ≡ start)

-- The mate of a block lies behind a block with an even number and before one with an odd number;
-- the two make up one block of the next order, and each is the mate of the other.
pub mate_addr_lem :
    (order addr : ℕ)
    → order ≤ 10
    → addr < 2 ^ 32
    → let start = addr - addr % block order in
      (mate_addr order addr
        ≡ (if addr / block order % 2 == 0 then start + block order else start - block order))
      × (mate_addr order addr / block (suc order) ≡ addr / block (suc order))
      × (mate_addr order (mate_addr order addr) ≡ start)
unfolding addr_to_map_id map_to_addr mate_addr
mate_addr_lem order addr h lt =
    each_order (Mate addr)
      (
        (ground arith, ground arith, ground arith),
        (ground arith, ground arith, ground arith),
        (ground arith, ground arith, ground arith),
        (ground arith, ground arith, ground arith),
        (ground arith, ground arith, ground arith),
        (ground arith, ground arith, ground arith),
        (ground arith, ground arith, ground arith),
        (ground arith, ground arith, ground arith),
        (ground arith, ground arith, ground arith),
        (ground arith, ground arith, ground arith),
        (ground arith, ground arith, ground arith),
      )
      order h
