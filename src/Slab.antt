-- ===== src/Slab.antt =====
-- mem/slav_allocator.c, caches of objects of one size. A slab has 16 chunks; its list of free chunks is
-- the list of their numbers, and the pointer behind the last, to the chunk 16 that nothing writes, is
-- the end of the list. `prev_free`, which is written and never followed, is left out, and so are the
-- back pointers of the lists. `none` is a read of memory that nothing has written, a slab that would be
-- in two lists, or a free chunk that is released again, whose list of free chunks becomes a cycle. What
-- the heap gives for a new slab is a parameter. `slab_cache_destroy` and `slab_test` are left out.
pub mod Chunks
pub mod Take
pub mod Put
pub mod Give
pub mod Room
mod Tests
use xanadu_os.Base.{
  ℕ, zero, suc, ◌+◌, ◌-◌, ◌*◌, ◌%◌, ◌^◌, Bool, true, false, ◌&&◌, ◌||◌, not, Option, none, some,
  List, [], ◌∷◌, ◌++◌, ltb, leb, ◌==◌, if◌then◌else◌,
}
use xanadu_os.Base.Words.{u32, sub32}

abbrev pub slab_capacity : ℕ
slab_capacity = 16

-- The sizes of `struct slab_chunk` and `struct slab`.
abbrev pub chunk_struct : ℕ
chunk_struct = 20

abbrev pub slab_struct : ℕ
slab_struct = 40

-- `struct slab`; `first_data` is the address of the data of chunk 0.
pub record Slab : Type 0 where
  pub size : ℕ
  pub num_free : ℕ
  pub first_data : ℕ
  pub free : List ℕ

pub record SlabCache : Type 0 where
  pub slabs_free : List Slab
  pub slabs_full : List Slab
  pub slabs_partial : List Slab
  pub size : ℕ
  pub alignment : ℕ

-- What the heap gives for a slab: the structure and, for an alignment, the data.
pub record NewSlab : Type 0 where
  pub new_slab : ℕ
  pub slab_data : ℕ

abbrev pub data_addr : Slab → (chunk : ℕ) → ℕ
data_addr s chunk = u32 (s.first_data + chunk * s.size)

abbrev pub chunk_meta_size : (size align : ℕ) → ℕ
chunk_meta_size size align = if align == 0 then u32 (size + chunk_struct) else size

-- The bytes asked for the structure with its chunks, and for the data of aligned chunks.
pub slab_request : (size align : ℕ) → ℕ
slab_request size align =
    if align == 0
    then u32 (slab_struct + sub32 ((slab_capacity + 1) * chunk_meta_size size align) size)
    else slab_struct + (slab_capacity + 1) * chunk_struct

pub data_request : (size : ℕ) → ℕ
data_request size = u32 (slab_capacity * size)

-- The chunks from `i` on, all free.
abbrev pub chunks_from : (count i : ℕ) → List ℕ
chunks_from zero i = []
chunks_from (suc n) i = i ∷ chunks_from n (i + 1)

abbrev pub fresh_slab : (size align : ℕ) → NewSlab → Slab
fresh_slab size align new = record {
  size = chunk_meta_size size align;
  num_free = slab_capacity;
  first_data =
      if align == 0 then u32 (new.new_slab + slab_struct + chunk_struct) else new.slab_data;
  free = chunks_from slab_capacity 0;
}

abbrev pub slab_alloc_slab_align : NewSlab → SlabCache → (align : ℕ) → SlabCache
slab_alloc_slab_align new cache align = record cache {
  slabs_free = fresh_slab cache.size align new ∷ cache.slabs_free;
}

-- `align_up` as the header has it.
abbrev pub cache_size : (size alignment : ℕ) → ℕ
cache_size size alignment =
    if alignment == 0
    then size
    else u32 (size - size % alignment + (if size % alignment == 0 then 0 else alignment))

pub slab_cache_create_align : NewSlab → (size alignment : ℕ) → List SlabCache → List SlabCache
slab_cache_create_align new size alignment caches =
    slab_alloc_slab_align new
      (record {
        slabs_free = [];
        slabs_full = [];
        slabs_partial = [];
        size = cache_size size alignment;
        alignment = alignment;
      })
      alignment
    ∷ caches

pub slab_cache_create : NewSlab → (size : ℕ) → List SlabCache → List SlabCache
unfolding slab_cache_create_align
slab_cache_create new size caches = slab_cache_create_align new size 0 caches

-- The slab without its first free chunk.
abbrev pub without : Slab → (rest : List ℕ) → Slab
without s rest = record s { num_free = sub32 s.num_free 1; free = rest }

-- The first free chunk of the first slab of `slabs_partial`, whose list of free chunks is given.
abbrev pub from_partial : SlabCache → Slab → List Slab → List ℕ → Option (SlabCache × ℕ)
from_partial cache s others [] = none
from_partial cache s others (chunk ∷ rest) =
    let s' = without s rest in
    if s'.num_free == 0
    then some (
      record cache { slabs_partial = others; slabs_full = s' ∷ cache.slabs_full },
      data_addr s chunk,
    )
    else if s'.num_free == slab_capacity - 1
    then none
    else some (record cache { slabs_partial = s' ∷ others }, data_addr s chunk)

-- The same for `slabs_free`, when `slabs_partial` is empty.
abbrev pub from_free : SlabCache → Slab → List Slab → List ℕ → Option (SlabCache × ℕ)
from_free cache s others [] = none
from_free cache s others (chunk ∷ rest) =
    let s' = without s rest in
    if s'.num_free == 0
    then none
    else if s'.num_free == slab_capacity - 1
    then some (
      record cache { slabs_free = others; slabs_partial = s' ∷ cache.slabs_partial },
      data_addr s chunk,
    )
    else some (record cache { slabs_free = s' ∷ others }, data_addr s chunk)

-- The cache in which `slab_alloc_from_cache` looks for a chunk: with a new slab when there is none
-- but full ones.
abbrev pub grown : NewSlab → SlabCache → (partial free : List Slab) → SlabCache
grown new cache (s ∷ others) free = cache
grown new cache [] (s ∷ others) = cache
grown new cache [] [] = slab_alloc_slab_align new cache cache.alignment

abbrev pub with_slab : NewSlab → SlabCache → SlabCache
with_slab new cache = grown new cache cache.slabs_partial cache.slabs_free

abbrev pub take_from : SlabCache → (partial free : List Slab) → Option (SlabCache × ℕ)
take_from cache (s ∷ others) free = from_partial cache s others s.free
take_from cache [] (s ∷ others) = from_free cache s others s.free
take_from cache [] [] = none

abbrev pub take_chunk : SlabCache → Option (SlabCache × ℕ)
take_chunk cache = take_from cache cache.slabs_partial cache.slabs_free

pub slab_alloc_from_cache : NewSlab → SlabCache → Option (SlabCache × ℕ)
slab_alloc_from_cache new cache = take_chunk (with_slab new cache)

-- The cache of the first with the size is the one that changes; the address is 0 when no cache has it.
abbrev pub behind : SlabCache → Option (List SlabCache × ℕ) → Option (List SlabCache × ℕ)
behind cache none = none
behind cache (some (caches, addr)) = some (cache ∷ caches, addr)

abbrev pub in_front : List SlabCache → Option (SlabCache × ℕ) → Option (List SlabCache × ℕ)
in_front caches none = none
in_front caches (some (cache, addr)) = some (cache ∷ caches, addr)

pub slab_alloc : NewSlab → List SlabCache → (size : ℕ) → Option (List SlabCache × ℕ)
unfolding slab_alloc_from_cache
slab_alloc new [] size = some ([], 0)
slab_alloc new (cache ∷ caches) size =
    let rest = slab_alloc new caches size in
    if cache.size == size
    then in_front caches (slab_alloc_from_cache new cache)
    else behind cache rest

-- The list of free chunks with a chunk put in: in front of the first that is larger. The loop of the
-- source starts behind the first free chunk.
abbrev pub insert_behind : (chunk : ℕ) → List ℕ → List ℕ
insert_behind chunk [] = chunk ∷ []
insert_behind chunk (c ∷ cs) =
    let rest = insert_behind chunk cs in if ltb c chunk then c ∷ rest else chunk ∷ c ∷ cs

abbrev pub insert_free : (chunk : ℕ) → List ℕ → List ℕ
insert_free chunk [] = chunk ∷ []
insert_free chunk (first ∷ cs) =
    if ltb chunk first then chunk ∷ first ∷ cs else first ∷ insert_behind chunk cs

abbrev pub is_free : (chunk : ℕ) → List ℕ → Bool
is_free chunk [] = false
is_free chunk (c ∷ cs) = c == chunk || is_free chunk cs

-- A search among the chunks from `i` on.
abbrev pub seek_chunk : Slab → (addr count i : ℕ) → Option ℕ
seek_chunk s addr zero i = none
seek_chunk s addr (suc n) i =
    let rest = seek_chunk s addr n (i + 1) in if data_addr s i == addr then some i else rest

abbrev pub addr_within_slab : Slab → (addr : ℕ) → Bool
addr_within_slab s addr =
    leb (data_addr s 0) addr && ltb addr (u32 (data_addr s 0 + s.size * slab_capacity))

-- A chunk found in a list of slabs, with the slabs before its own and behind it.
pub record Located : Type 0 where
  pub before : List Slab
  pub slab : Slab
  pub chunk : ℕ
  pub after : List Slab

pub data Search : Type 0 where
  found : Located → Search
  absent : Search
  unwritten : Search

abbrev pub search_behind : Slab → Search → Search
search_behind s (found w) = found (record w { before = s ∷ w.before })
search_behind s absent = absent
search_behind s unwritten = unwritten

abbrev pub chunk_found : Slab → List Slab → Option ℕ → Search → Search
chunk_found s slabs (some chunk) otherwise =
    found (record { before = []; slab = s; chunk = chunk; after = slabs })
chunk_found s slabs none otherwise = otherwise

-- `slab_find_chunk`: it starts at chunk 1, and behind the last chunk it reads the chunk that nothing
-- writes.
pub slab_find_chunk : (seek_addr : ℕ) → List Slab → Search
slab_find_chunk seek_addr [] = absent
slab_find_chunk seek_addr (s ∷ slabs) =
    let rest = search_behind s (slab_find_chunk seek_addr slabs) in
    if addr_within_slab s seek_addr
    then chunk_found s slabs (seek_chunk s seek_addr (slab_capacity - 1) 1) unwritten
    else rest

-- The structure before the data of a chunk, which names its slab; any other address has none.
pub chunk_before : (addr : ℕ) → List Slab → Search
chunk_before addr [] = unwritten
chunk_before addr (s ∷ slabs) =
    chunk_found s slabs (seek_chunk s addr slab_capacity 0)
      (search_behind s (chunk_before addr slabs))

-- The list in which a slab stands.
pub data Place : Type 0 where
  in_free : Place
  in_partial : Place
  in_full : Place

abbrev pub set_slabs : Place → List Slab → SlabCache → SlabCache
set_slabs in_free slabs cache = record cache { slabs_free = slabs }
set_slabs in_partial slabs cache = record cache { slabs_partial = slabs }
set_slabs in_full slabs cache = record cache { slabs_full = slabs }

abbrev pub insert_slab : Place → Slab → SlabCache → SlabCache
insert_slab in_free s cache = record cache { slabs_free = s ∷ cache.slabs_free }
insert_slab in_partial s cache = record cache { slabs_partial = s ∷ cache.slabs_partial }
insert_slab in_full s cache = record cache { slabs_full = s ∷ cache.slabs_full }

abbrev pub with_chunk : Located → Slab
with_chunk w = record (w.slab) {
  num_free = u32 (w.slab.num_free + 1);
  free = insert_free w.chunk w.slab.free;
}

pub put_back : Place → SlabCache → Located → Option SlabCache
put_back place cache w =
    let s = with_chunk w in
    if is_free w.chunk w.slab.free
    then none
    else if s.num_free == 1
    then some (insert_slab in_partial s (set_slabs place (w.before ++ w.after) cache))
    else if s.num_free == slab_capacity
    then some (insert_slab in_free s (set_slabs place (w.before ++ w.after) cache))
    else some (set_slabs place (w.before ++ s ∷ w.after) cache)

abbrev pub search_next :
    (found_in : Place) → SlabCache → Search → Option SlabCache → Option SlabCache
search_next place cache (found w) otherwise = put_back place cache w
search_next place cache absent otherwise = otherwise
search_next place cache unwritten otherwise = none

abbrev pub or_else : (found_in : Place) → SlabCache → Search → Option SlabCache → Option SlabCache
or_else place cache (found w) otherwise = put_back place cache w
or_else place cache absent otherwise = otherwise
or_else place cache unwritten otherwise = otherwise

-- A chunk without alignment is found by the structure before it, whatever list its slab is in.
abbrev pub release_unaligned : SlabCache → (addr : ℕ) → Option SlabCache
release_unaligned cache addr = or_else in_partial cache (chunk_before addr cache.slabs_partial) (
    or_else in_full cache (chunk_before addr cache.slabs_full)
      (or_else in_free cache (chunk_before addr cache.slabs_free) none))

abbrev pub release_aligned : SlabCache → (addr : ℕ) → Option SlabCache
release_aligned cache addr =
    search_next in_partial cache (slab_find_chunk addr cache.slabs_partial)
      (search_next in_full cache (slab_find_chunk addr cache.slabs_full) (some cache))

pub slab_free : SlabCache → (obj : ℕ) → Option SlabCache
unfolding put_back
slab_free cache obj =
    if obj == 0
    then some cache
    else if cache.alignment == 0
    then release_unaligned cache obj
    else release_aligned cache obj
