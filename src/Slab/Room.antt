-- ===== src/Slab/Room.antt =====
-- Where the chunks of a slab lie, and an address that cannot be released.
use xanadu_os.Base.{
  ℕ, zero, suc, ◌+◌, ◌-◌, ◌*◌, ◌^◌, ◌≤◌, ◌<◌, ◌≡◌, ◌≢◌, ◌∙◌, refl, sym, ap, true, false, none, List,
  ◌∷◌, ◌==◌, arith,
}
use native.Mathlib.Nat.{mul-le-mul_right, add-mul}
use xanadu_os.Base.Words.{u32}
use xanadu_os.Slab.{
  Slab, SlabCache, NewSlab, slab_capacity, data_addr, slab_struct, chunk_struct, slab_request,
  fresh_slab, seek_chunk, slab_find_chunk, slab_free, addr_within_slab, unwritten,
}

step : (i j m : ℕ) → i < j → suc i * m ≤ j * m
step i j m h = mul-le-mul_right m (omega (arith, h))

times : (i j m : ℕ) → i < j → i * m + m ≤ j * m
times i j m h = omega (arith, step i j m h, add-mul i 1 m)

-- Two chunks of a slab without alignment, when sizes and addresses fit into 32 bits: both lie behind
-- the structure of the slab and within the bytes that were asked for, and between them there is
-- place for the structure of the second.
pub fresh_slab-room :
    (size : ℕ) (new : NewSlab) (i j : ℕ)
    → 17 * (size + 20) + 40 < 2 ^ 32
    → new.new_slab + slab_request size 0 < 2 ^ 32
    → i < j
    → j < slab_capacity
    → (new.new_slab + slab_struct + chunk_struct ≤ data_addr (fresh_slab size 0 new) i)
      × (data_addr (fresh_slab size 0 new) i + size + chunk_struct
          ≤ data_addr (fresh_slab size 0 new) j)
      × (data_addr (fresh_slab size 0 new) j + size ≤ new.new_slab + slab_request size 0)
unfolding slab_request
fresh_slab-room size new i j fits room l h =
    let m = size + 20 in
    let meta : u32 (size + chunk_struct) ≡ m = omega (arith, fits) in
    let asked : slab_request size 0 ≡ 17 * m + 40 - size = omega (arith, fits) in
    let at_i = times i 16 m (omega arith) in
    let at_j = times j 16 m (omega arith) in
    let apart = times i j m l in rw meta (omega (arith, room, asked, at_i, at_j, apart, fits))

-- Seeking the first chunk from the second on.
seek_first :
    (s : Slab) (n i : ℕ)
    → 0 < i
    → i + n ≤ 16
    → 0 < s.size
    → s.first_data + 16 * s.size < 2 ^ 32
    → seek_chunk s (data_addr s 0) n i ≡ none
seek_first s zero i p b z f = refl
seek_first s (suc n) i p b z f =
    let at = times i 16 s.size (omega arith) in
    let above = times 0 i s.size p in
    let other : (data_addr s i == data_addr s 0) ≡ false = ground (arith, f, z, at, above) in
    rw other (seek_first s n (i + 1) (omega arith) (omega arith) z f)

first_unwritten :
    (s : Slab) (others : List Slab)
    → 0 < s.size
    → s.first_data + 16 * s.size < 2 ^ 32
    → slab_find_chunk (data_addr s 0) (s ∷ others) ≡ unwritten
unfolding slab_find_chunk
first_unwritten s others z f =
    let within : addr_within_slab s (data_addr s 0) ≡ true = ground (arith, z, f) in
    rw (within, seek_first s 15 1 (omega arith) (omega arith) z f) refl

-- With an alignment, the first chunk of a slab cannot be released while the slab is the first of
-- those with free and taken chunks: the search passes it and reads memory behind the last chunk that
-- nothing has written.
pub slab_free-first_chunk :
    (cache : SlabCache) (s : Slab) (others : List Slab)
    → cache.alignment ≢ 0
    → cache.slabs_partial ≡ s ∷ others
    → 0 < s.first_data
    → 0 < s.size
    → s.first_data + 16 * s.size < 2 ^ 32
    → slab_free cache s.first_data ≡ none
unfolding slab_free
slab_free-first_chunk cache s others al p d z f =
    let here : data_addr s 0 ≡ s.first_data = omega (arith, f) in
    let search : slab_find_chunk s.first_data (s ∷ others) ≡ unwritten =
      ap (λ a. slab_find_chunk a (s ∷ others)) (sym here) ∙ first_unwritten s others z f in
    let nonzero : (s.first_data == 0) ≡ false = ground (arith, d) in
    let aligned : (cache.alignment == 0) ≡ false = ground (arith, al) in
    rw (nonzero, aligned, p, search) refl
