-- ===== src/Slab/Tests.antt =====
-- Caches of objects of 256 bytes and of pages.
use xanadu_os.Base.{ℕ, ◌+◌, ◌-◌, ◌*◌, ◌≡◌, refl, true, ◌||◌, none, [], ◌∷◌, arith}
use xanadu_os.Slab.{
  SlabCache, NewSlab, data_addr, slab_request, fresh_slab, with_slab, slab_alloc_from_cache,
  slab_free, chunks_from,
}
use xanadu_os.Slab.Chunks.{is_valid, slabs_ok, slab_ok, ascending, free_at, slabs_at, chunks_at}
use xanadu_os.Slab.Take.{Takes, slab_alloc_from_cache_lem}
use xanadu_os.Slab.Put.{Gives}
use xanadu_os.Slab.Give.{has_chunk, slab_free_lem}
use xanadu_os.Slab.Room.{slab_free-first_chunk}

abbrev new : NewSlab
new = record { new_slab = 0xC0400000; slab_data = 0xC0500000 }

-- One slab of which chunk 0 is taken.
abbrev started : (size alignment : ℕ) → SlabCache
started size alignment = record {
  slabs_free = [];
  slabs_full = [];
  slabs_partial =
      record (fresh_slab size alignment new) { num_free = 15; free = chunks_from 15 1 } ∷ [];
  size = size;
  alignment = alignment;
}

started-IsValid : is_valid (started 256 0) ≡ true
unfolding is_valid slabs_ok slab_ok ascending
started-IsValid = refl

abbrev object : ℕ
object = data_addr (fresh_slab 256 0 new) 0

object_taken : free_at object (started 256 0) ≡ 0
unfolding free_at slabs_at chunks_at
object_taken = refl

object_there :
    (has_chunk object (started 256 0).slabs_partial
      || has_chunk object (started 256 0).slabs_full
      || has_chunk object (started 256 0).slabs_free)
    ≡ true
unfolding has_chunk
object_there = refl

slab_alloc_from_cache_lem_example :
    Takes (with_slab new (started 256 0)) (slab_alloc_from_cache new (started 256 0))
slab_alloc_from_cache_lem_example = slab_alloc_from_cache_lem new (started 256 0) started-IsValid

slab_free_lem_example : Gives (started 256 0) object (slab_free (started 256 0) object)
slab_free_lem_example =
    slab_free_lem (started 256 0) object started-IsValid refl (omega arith) object_taken
      object_there

request : slab_request 256 0 ≡ 17 * 276 + 40 - 256
unfolding slab_request
request = refl

slab_free-first_chunk_example : slab_free (started 4096 4096) 0xC0500000 ≡ none
slab_free-first_chunk_example =
    slab_free-first_chunk (started 4096 4096)
      (record (fresh_slab 4096 4096 new) { num_free = 15; free = chunks_from 15 1 }) []
      (omega arith) refl (omega arith) (omega arith) (omega arith)
