-- ===== src/Slab/Put.antt =====
-- What putting a chunk back does to a cache.
use xanadu_os.Base.{
  ℕ, suc, ◌+◌, ◌≤◌, ◌<◌, ◌≡◌, ◌∙◌, refl, sym, ap, true, false, ◌&&◌, Option, some, List, [], ◌∷◌,
  ◌++◌, ◌==◌, if◌then◌else◌, arith, length, Bool-cases, inl, inr,
}
use xanadu_os.Slab.{
  Slab, SlabCache, Located, Place, in_free, in_partial, in_full, data_addr, insert_free, is_free,
  set_slabs, insert_slab, with_chunk, put_back,
}
use xanadu_os.Slab.Chunks.{
  ascending, slab_ok, slabs_ok, is_valid, chunks_at, slabs_at, free_at, ascending-length,
  insert_free-ascending, insert_free-length, insert_free-chunks_at, slabs_ok-append,
  slabs_at-append,
}

-- A chunk is given back: the cache stays valid, and of all addresses exactly that of the chunk is
-- free once more.
pub Gives : (before : SlabCache) → (addr : ℕ) → Option SlabCache → Type 0
Gives before addr result =
    (after : SlabCache) × (result ≡ some after)
    × (is_valid after ≡ true)
    × ((a : ℕ) → free_at a after ≡ free_at a before + (if addr == a then 1 else 0))

chunks_at-with_chunk :
    (a : ℕ) (w : Located) (l : List ℕ) → chunks_at a (with_chunk w) l ≡ chunks_at a w.slab l
unfolding chunks_at
chunks_at-with_chunk a w [] = refl
chunks_at-with_chunk a w (c ∷ cs) = ground (arith, chunks_at-with_chunk a w cs)

abbrev pub slabs_of : Place → SlabCache → List Slab
slabs_of in_free cache = cache.slabs_free
slabs_of in_partial cache = cache.slabs_partial
slabs_of in_full cache = cache.slabs_full

-- The slab with the chunk.
with_chunk_ok :
    (lo hi : ℕ) (w : Located)
    → slab_ok lo hi w.slab ≡ true
    → w.chunk < 16
    → is_free w.chunk w.slab.free ≡ false
    → (ascending 0 (with_chunk w).free ≡ true)
      × ((with_chunk w).num_free ≡ length (with_chunk w).free)
      × ((with_chunk w).num_free ≡ suc w.slab.num_free)
      × (lo ≤ w.slab.num_free)
      × (w.slab.num_free ≤ hi)
      × (suc w.slab.num_free ≤ 16)
unfolding slab_ok
with_chunk_ok lo hi w h c f =
    let asc : ascending 0 w.slab.free ≡ true = ground (arith, h) in
    let num : w.slab.num_free ≡ length w.slab.free = ground (arith, h) in
    let asc' = insert_free-ascending w.chunk w.slab.free asc c f in
    let len = insert_free-length w.chunk w.slab.free in
    let top = ascending-length 0 (insert_free w.chunk w.slab.free) asc' in
    (
      asc',
      omega (arith, num, len, top),
      omega (arith, num, len, top),
      ground (arith, h),
      ground (arith, h),
      omega (arith, num, len, top),
    )

with_chunk_at :
    (a : ℕ) (w : Located)
    → chunks_at a (with_chunk w) (with_chunk w).free
      ≡ (if data_addr w.slab w.chunk == a then 1 else 0) + chunks_at a w.slab w.slab.free
unfolding chunks_at
with_chunk_at a w =
    chunks_at-with_chunk a w (insert_free w.chunk w.slab.free)
    ∙ insert_free-chunks_at w.chunk a w.slab w.slab.free

-- A search for an address among slabs that have a chunk with it.
abbrev pub IsAt : (addr : ℕ) → List Slab → Located → Type 0
IsAt addr slabs w =
    (slabs ≡ w.before ++ w.slab ∷ w.after) × (w.chunk < 16) × (data_addr w.slab w.chunk ≡ addr)

-- The slab and the others of its list.
pieces :
    (lo hi : ℕ) (slabs : List Slab) (w : Located)
    → slabs ≡ w.before ++ w.slab ∷ w.after
    → slabs_ok lo hi slabs ≡ true
    → (slab_ok lo hi w.slab ≡ true) × (slabs_ok lo hi (w.before ++ w.after) ≡ true)
pieces lo hi slabs w e h =
    let all : (slab_ok lo hi w.slab && slabs_ok lo hi (w.before ++ w.after)) ≡ true =
      sym (ap (slabs_ok lo hi) e ∙ slabs_ok-append lo hi w.before w.slab w.after) ∙ h in
    (ground (arith, all), ground (arith, all))

-- The addresses of a list with the slab taken out, and those of the slab with the chunk.
count :
    (addr a : ℕ) (slabs : List Slab) (w : Located)
    → IsAt addr slabs w
    → slabs_at a (w.before ++ w.after) + chunks_at a (with_chunk w) (with_chunk w).free
      ≡ slabs_at a slabs + (if addr == a then 1 else 0)
count addr a slabs w (e, c, d) =
    let out = ap (slabs_at a) e ∙ slabs_at-append a w.before w.slab w.after in
    let new =
      with_chunk_at a w ∙ ap (λ x. (if x == a then 1 else 0) + chunks_at a w.slab w.slab.free) d in
    omega (arith, out, new)

into_partial :
    (cache : SlabCache) (addr : ℕ) (w : Located)
    → IsAt addr cache.slabs_full w
    → is_free w.chunk w.slab.free ≡ false
    → is_valid cache ≡ true
    → Gives cache addr (put_back in_full cache w)
unfolding is_valid slabs_ok slab_ok free_at slabs_at Gives put_back
into_partial cache addr w at f v =
    let (ok, others) = pieces 0 0 cache.slabs_full w at.0 (ground (arith, v)) in
    let o = with_chunk_ok 0 0 w ok at.1 f in
    let one : (with_chunk w).num_free ≡ 1 = omega (arith, o.2, o.4) in
    (
      insert_slab in_partial (with_chunk w) (set_slabs in_full (w.before ++ w.after) cache),
      rw (f, one) refl,
      ground (arith, v, others, o.0, o.1, one),
      λ a. omega (arith, count addr a cache.slabs_full w at),
    )

within_partial :
    (cache : SlabCache) (addr : ℕ) (w : Located)
    → IsAt addr cache.slabs_partial w
    → is_free w.chunk w.slab.free ≡ false
    → is_valid cache ≡ true
    → Gives cache addr (put_back in_partial cache w)
unfolding is_valid slabs_ok slab_ok free_at slabs_at Gives put_back
within_partial cache addr w at f v =
    let (ok, others) = pieces 1 15 cache.slabs_partial w at.0 (ground (arith, v)) in
    let o = with_chunk_ok 1 15 w ok at.1 f in
    let many : ((with_chunk w).num_free == 1) ≡ false = ground (arith, o.2, o.3) in
    elim (Bool-cases ((with_chunk w).num_free == 16)) [
      | inl full ↦ (
        insert_slab in_free (with_chunk w) (set_slabs in_partial (w.before ++ w.after) cache),
        rw (f, many, full) refl,
        ground (arith, v, others, o.0, o.1, full),
        λ a. omega (arith, count addr a cache.slabs_partial w at),
      )
      | inr less ↦
          let kept = slabs_ok-append 1 15 w.before (with_chunk w) w.after in
          (
            set_slabs in_partial (w.before ++ with_chunk w ∷ w.after) cache,
            rw (f, many, less) refl,
            ground (arith, v, others, o.0, o.1, o.2, o.3, o.5, less, kept),
            λ a. omega (
              arith,
              count addr a cache.slabs_partial w at,
              slabs_at-append a w.before (with_chunk w) w.after,
            ),
          )
    ]

pub put_back_lem :
    (place : Place) (cache : SlabCache) (addr : ℕ) (w : Located)
    → IsAt addr (slabs_of place cache) w
    → is_free w.chunk w.slab.free ≡ false
    → is_valid cache ≡ true
    → Gives cache addr (put_back place cache w)
unfolding is_valid
put_back_lem in_free cache addr w at f v =
    let (ok, others) = pieces 16 16 cache.slabs_free w at.0 (ground (arith, v)) in
    let o = with_chunk_ok 16 16 w ok at.1 f in absurd (omega (arith, o.3, o.5))
put_back_lem in_partial cache addr w at f v = within_partial cache addr w at f v
put_back_lem in_full cache addr w at f v = into_partial cache addr w at f v
