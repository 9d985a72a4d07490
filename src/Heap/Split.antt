-- ===== src/Heap/Split.antt =====
-- What cutting a block does to the holes.
use xanadu_os.Base.{
  ℕ, zero, suc, ◌+◌, ◌^◌, ◌<◌, ◌≡◌, ◌≢◌, ◌∙◌, some, ◌≤◌, ltb, leb, sym, if◌then◌else◌, ◌*◌, ◌-◌,
  refl, ap, true, false, ◌||◌, ◌==◌, ◌%◌, arith, Bool-cases, inl, inr,
}
use xanadu_os.Base.Words.{u32, sub32}
use xanadu_os.Base.Memory.{update_same, update_other}
use xanadu_os.Heap.{
  Heap, cuts, claimed, claim, expanded, expand_heap, do_alloc, out_of_fuel, find_hole, fits,
  cut_block, new_block, hole_listed, set_block, or_null, Header, data_in, get_data_base,
}

-- A hole that is its own next one and does not fit is searched for ever.
find_hole-cycle :
    (fuel : ℕ) (s : Heap) (hole last size alignment : ℕ)
    → hole ≢ 0
    → (s.blocks hole).next_hole ≡ hole
    → fits s hole size alignment ≡ false
    → find_hole fuel s hole last size alignment ≡ out_of_fuel
unfolding find_hole
find_hole-cycle zero s hole last size alignment n e f = refl
find_hole-cycle (suc k) s hole last size alignment n e f =
    let nonzero : (hole == 0) ≡ false = ground (arith, n) in
    rw (nonzero, f)
      (ap (λ h. find_hole k s h hole size alignment) e
        ∙ find_hole-cycle k s hole hole size alignment n e f)

-- The header of a block that is cut off, in the heap behind the cut.
cut_block-new :
    (s : Heap) (header size data_base : ℕ)
    → header ≢ u32 (data_base + size)
    → (cut_block s header size data_base).blocks (u32 (data_base + size))
      ≡ new_block (hole_listed s header (u32 (data_base + size))) header size data_base
unfolding cut_block
cut_block-new s header size data_base d =
    let new = u32 (data_base + size) in
    let s1 = hole_listed s header new in
    let s2 = set_block s1 new (new_block s1 header size data_base) in
    update_other s2.blocks header (record (s2.blocks header) { next = new; next_hole = new }) new d
    ∙ update_same s1.blocks new (new_block s1 header size data_base)

-- When the first block of the heap is cut and has no next hole, the new block becomes its own next
-- hole: a search that comes to it and that it does not fit never ends, for any fuel.
pub cut_block-cycle :
    (s : Heap) (size data_base : ℕ)
    → (s.blocks s.heap_base_addr).next_hole ≡ 0
    → s.heap_base_addr ≢ u32 (data_base + size)
    → u32 (data_base + size) ≢ 0
    → u32 (data_base + size) < 0xFFFFFFFF
    → (fuel last siz alignment : ℕ)
    → fits (cut_block s s.heap_base_addr size data_base) (u32 (data_base + size)) siz alignment
      ≡ false
    → find_hole fuel
        (cut_block s s.heap_base_addr size data_base)
        (u32 (data_base + size))
        last
        siz
        alignment
      ≡ out_of_fuel
cut_block-cycle s size data_base e d n b fuel last siz alignment f =
    let new = u32 (data_base + size) in
    let base = s.heap_base_addr in
    let here = cut_block-new s base size data_base d in
    let none_yet : ((s.blocks base).next_hole == 0) ≡ true = ground (arith, e) in
    let listed : ((hole_listed s base new).blocks base).next_hole ≡ new = rw (none_yet) (
      ap (λ h. h.next_hole)
        (update_same s.blocks base (record (s.blocks base) { next_hole = new }))) in
    let address : or_null new ≡ new = ground (arith, b) in
    find_hole-cycle fuel (cut_block s base size data_base) new last siz alignment n
      (ap (λ h. h.next_hole) here ∙ ap or_null listed ∙ address) f

end_kept : (s : Heap) (header new : ℕ) → (hole_listed s header new).heap_end_addr ≡ s.heap_end_addr
end_kept s header new =
    elim (Bool-cases (
      (s.blocks s.heap_base_addr).next_hole == 0
      || (s.blocks s.heap_base_addr).next_hole == header)) [ inl y ↦ rw y refl | inr n ↦ rw n refl ]

listed_other :
    (s : Heap) (header new block : ℕ)
    → s.heap_base_addr ≢ block
    → (hole_listed s header new).blocks block ≡ s.blocks block
listed_other s header new block b =
    elim (Bool-cases (
      (s.blocks s.heap_base_addr).next_hole == 0
      || (s.blocks s.heap_base_addr).next_hole == header)) [
        | inl y ↦ rw y (
            update_other s.blocks s.heap_base_addr
              (record (s.blocks s.heap_base_addr) { next_hole = new }) block b)
        | inr n ↦ rw n refl
      ]

-- A header that is none of those that the cut writes.
cut_block-other :
    (s : Heap) (header size data_base block : ℕ)
    → header ≢ block
    → u32 (data_base + size) ≢ block
    → s.heap_base_addr ≢ block
    → (cut_block s header size data_base).blocks block ≡ s.blocks block
unfolding cut_block
cut_block-other s header size data_base block h n b =
    let new = u32 (data_base + size) in
    let s1 = hole_listed s header new in
    let s2 = set_block s1 new (new_block s1 header size data_base) in
    update_other s2.blocks header (record (s2.blocks header) { next = new; next_hole = new }) block
      h
    ∙ update_other s1.blocks new (new_block s1 header size data_base) block n
    ∙ listed_other s header new block b

claimed_other :
    (s : Heap) (header size block : ℕ)
    → header ≢ block
    → (claimed s header size).blocks block ≡ s.blocks block
claimed_other s header size block h =
    update_other s.blocks header
      (record (s.blocks header) { is_hole = false; size = u32 (size + 32) }) block h

claimed_next :
    (s : Heap) (header size : ℕ)
    → ((claimed s header size).blocks header).next ≡ (s.blocks header).next
claimed_next s header size =
    ap (λ h. h.next)
      (update_same s.blocks header
        (record (s.blocks header) { is_hole = false; size = u32 (size + 32) }))

cut_block-next :
    (s : Heap) (header size data_base : ℕ)
    → ((cut_block s header size data_base).blocks header).next ≡ u32 (data_base + size)
unfolding cut_block
cut_block-next s header size data_base =
    let new = u32 (data_base + size) in
    let s1 = hole_listed s header new in
    let s2 = set_block s1 new (new_block s1 header size data_base) in
    ap (λ h. h.next)
      (update_same s2.blocks header (record (s2.blocks header) { next = new; next_hole = new }))

cut_block-end :
    (s : Heap) (header size data_base : ℕ)
    → (cut_block s header size data_base).heap_end_addr ≡ s.heap_end_addr
unfolding cut_block
cut_block-end s header size data_base = end_kept s header (u32 (data_base + size))

claim-far :
    (mapped : ℕ → ℕ → ℕ) (header data_base : ℕ) (s : Heap)
    → ltb (sub32 s.heap_end_addr 0x100000) (s.blocks header).next ≡ false
    → claim mapped header data_base s ≡ some (s, data_base)
unfolding claim
claim-far mapped header data_base s h =
    ap (λ b. if b then expanded data_base (expand_heap mapped header 1 s) else some (s, data_base))
      h

-- The heap behind `do_alloc` when a block is cut off and its end is far from that of the heap.
do_alloc-cuts :
    (mapped : ℕ → ℕ → ℕ) (s : Heap) (header size data_base : ℕ)
    → cuts (s.blocks header) size ≡ true
    → u32 (data_base + size) + 0x100000 ≤ s.heap_end_addr
    → s.heap_end_addr < 2 ^ 32
    → do_alloc mapped header size data_base s
      ≡ some (claimed (cut_block s header size data_base) header size, data_base)
unfolding do_alloc
do_alloc-cuts mapped s header size data_base c far small =
    let s1 = cut_block s header size data_base in
    let t = claimed s1 header size in
    let next : (t.blocks header).next ≡ u32 (data_base + size) =
      claimed_next s1 header size ∙ cut_block-next s header size data_base in
    let end : t.heap_end_addr ≡ s.heap_end_addr = cut_block-end s header size data_base in
    let keeps : ltb (sub32 t.heap_end_addr 0x100000) (t.blocks header).next ≡ false =
      ground (arith, next, end, far, small) in
    ap (λ b. claim mapped header data_base (claimed (if b then s1 else s) header size)) c
    ∙ claim-far mapped header data_base t keeps

cuts_large : (h : Header) (size : ℕ) → size + 96 ≤ h.size → size + 96 < 2 ^ 32 → cuts h size ≡ true
cuts_large h size l small =
    let room : leb (u32 (size + 3 * 32)) h.size ≡ true = ground (arith, l, small) in
    ap (λ b. h.next == 0 || b) room
    ∙ elim (Bool-cases (h.next == 0)) [ inl y ↦ rw y refl | inr n ↦ rw n refl ]

data_in-unaligned : (header : ℕ) → header + 32 < 2 ^ 32 → sub32 (data_in header 1) header ≡ 32
data_in-unaligned header small =
    let base : get_data_base header ≡ header + 32 = omega (arith, small) in
    let whole : (get_data_base header % 1 == 0) ≡ true = ground arith in
    let same : data_in header 1 ≡ header + 32 = rw whole (omega (arith, base, small)) in
    omega (arith, same, small)

fits_when :
    (s : Heap) (header size alignment : ℕ)
    → (s.blocks header).is_hole ≡ true
    → u32 (size + sub32 (data_in header alignment) header) ≤ (s.blocks header).size
    → fits s header size alignment ≡ true
fits_when s header size alignment h l = rw h (ground (arith, l))

-- When a block is cut off in front of an allocated one, the new block is a hole that reaches to the end
-- of the heap and so contains the whole allocated block, header and data; that block is not changed,
-- and the new hole fits for data that end where the allocated block ends.
pub do_alloc-covers :
    (mapped : ℕ → ℕ → ℕ) (s : Heap) (header size data_base block : ℕ)
    → (s.blocks header).next ≡ block
    → (s.blocks block).is_hole ≡ false
    → header + (s.blocks header).size ≡ block
    → header + 32 ≤ data_base
    → data_base + size + 64 ≤ block
    → block + (s.blocks block).size ≤ s.heap_end_addr
    → block + 0x100000 ≤ s.heap_end_addr
    → s.heap_end_addr < 2 ^ 32
    → s.heap_base_addr ≢ block
    → (s' : Heap) × (do_alloc mapped header size data_base s ≡ some (s', data_base))
      × (s'.blocks block ≡ s.blocks block)
      × ((s'.blocks (data_base + size)).is_hole ≡ true)
      × (data_base + size < block)
      × (data_base + size + (s'.blocks (data_base + size)).size ≡ s.heap_end_addr)
      × (fits s' (data_base + size) (block + (s.blocks block).size - (data_base + size + 32)) 1
          ≡ true)
do_alloc-covers mapped s header size data_base block n a e d room inside far small b =
    let s1 = cut_block s header size data_base in
    let t = claimed s1 header size in
    let new = data_base + size in
    let address : u32 new ≡ new = omega (arith, room, far, small) in
    let kept : t.blocks block ≡ s.blocks block =
      claimed_other s1 header size block (omega (arith, d, room))
      ∙ cut_block-other s header size data_base block (omega (arith, d, room))
          (omega (arith, address, room)) b in
    let there : t.blocks new ≡ new_block (hole_listed s header (u32 new)) header size data_base =
      claimed_other s1 header size new (omega (arith, d))
      ∙ ap s1.blocks (sym address)
      ∙ cut_block-new s header size data_base (omega (arith, address, d)) in
    let end : (hole_listed s header (u32 new)).heap_end_addr ≡ s.heap_end_addr =
      end_kept s header (u32 new) in
    let hole : (t.blocks new).is_hole ≡ true = ap (λ h. h.is_hole) there in
    let size_at : (t.blocks new).size ≡ s.heap_end_addr - new =
      ap (λ h. h.size) there
      ∙ ap (λ x. sub32 (sub32 x data_base) size) end
      ∙ omega (arith, room, far, small) in
    let large : size + 96 ≤ (s.blocks header).size = omega (arith, e, d, room) in
    let cut : cuts (s.blocks header) size ≡ true =
      cuts_large (s.blocks header) size large (omega (arith, inside, far, small, room)) in
    let fitted : sub32 (data_in new 1) new ≡ 32 =
      data_in-unaligned new (omega (arith, room, far, small)) in
    (
      t,
      do_alloc-cuts mapped s header size data_base cut (omega (arith, address, room, far)) small,
      kept,
      hole,
      omega (arith, room),
      omega (arith, size_at, room, far),
      fits_when t new (block + (s.blocks block).size - (new + 32)) 1 hole
          (omega (arith, fitted, size_at, room, inside, far, small)),
    )
