-- ===== src/Slab/Take.antt =====
-- What an allocation takes from a cache.
use xanadu_os.Base.{
  ℕ, suc, ◌+◌, ◌≤◌, ◌≡◌, ◌∙◌, refl, sym, ap, true, false, Option, some, List, [], ◌∷◌, ◌==◌,
  if◌then◌else◌, arith, length, Bool-cases, inl, inr, List-cases,
}
use mathlib.Core.Path.{subst}
use xanadu_os.Base.Words.{sub32}
use xanadu_os.Slab.{
  Slab, SlabCache, NewSlab, data_addr, from_partial, from_free, with_slab, take_from, take_chunk,
  grown, slab_alloc_from_cache, without, fresh_slab, slab_alloc_slab_align,
}
use xanadu_os.Slab.Chunks.{
  ascending, slab_ok, slabs_ok, is_valid, chunks_at, slabs_at, free_at, ascending-length,
  ascending_weaken,
}

-- A chunk of a cache is taken: the cache stays valid, and of all addresses exactly that of the chunk
-- is free once less often.
pub Takes : (before : SlabCache) → Option (SlabCache × ℕ) → Type 0
Takes before result =
    (after : SlabCache) × (taken : ℕ) × (result ≡ some (after, taken))
    × (is_valid after ≡ true)
    × ((a : ℕ) → free_at a before ≡ free_at a after + (if taken == a then 1 else 0))

tail_ascending : (c : ℕ) (l : List ℕ) → ascending 0 (c ∷ l) ≡ true → ascending 0 l ≡ true
unfolding ascending
tail_ascending c l h = ascending_weaken 0 (c + 1) l (omega arith) (ground (arith, h))

chunks_at-without :
    (addr : ℕ) (s : Slab) (rest l : List ℕ) → chunks_at addr (without s rest) l ≡ chunks_at addr s l
unfolding chunks_at
chunks_at-without addr s rest [] = refl
chunks_at-without addr s rest (c ∷ cs) = ground (arith, chunks_at-without addr s rest cs)

-- A slab with a free chunk, and what is left of it.
Opened : (lo hi : ℕ) (s : Slab) (chunk : ℕ) (rest : List ℕ) → Type 0
Opened lo hi s chunk rest =
    (s.num_free ≡ suc (length rest))
    × (lo ≤ suc (length rest))
    × (suc (length rest) ≤ hi)
    × (ascending 0 rest ≡ true)
    × (suc (length rest) ≤ 16)

opened :
    (lo hi : ℕ) (s : Slab) (chunk : ℕ) (rest : List ℕ)
    → s.free ≡ chunk ∷ rest
    → slab_ok lo hi s ≡ true
    → Opened lo hi s chunk rest
unfolding slab_ok Opened
opened lo hi s chunk rest f h =
    let all : ascending 0 (chunk ∷ rest) ≡ true = ap (ascending 0) (sym f) ∙ ground (arith, h) in
    let count : length s.free ≡ suc (length rest) = ap length f in
    let top = ascending-length 0 (chunk ∷ rest) all in
    let tail = tail_ascending chunk rest all in
    (
      ground (arith, h, count),
      ground (arith, h, count),
      ground (arith, h, count),
      tail,
      omega (arith, top),
    )

-- What is left of a slab is well-formed, with one chunk less.
left_ok :
    (lo hi lo' hi' : ℕ) (s : Slab) (chunk : ℕ) (rest : List ℕ)
    → Opened lo hi s chunk rest
    → lo' ≤ length rest
    → length rest ≤ hi'
    → slab_ok lo' hi' (without s rest) ≡ true
unfolding slab_ok Opened
left_ok lo hi lo' hi' s chunk rest (n, l, h, asc, top) l' h' =
    let one : sub32 s.num_free 1 ≡ length rest = omega (arith, n, top) in
    rw (one, asc) ground (arith, l', h')

left_at :
    (a : ℕ) (s : Slab) (chunk : ℕ) (rest : List ℕ)
    → s.free ≡ chunk ∷ rest
    → chunks_at a s s.free
      ≡ (if data_addr s chunk == a then 1 else 0) + chunks_at a (without s rest) rest
unfolding chunks_at
left_at a s chunk rest f =
    ap (chunks_at a s) f
    ∙ ap (λ n. (if data_addr s chunk == a then 1 else 0) + n)
        (sym (chunks_at-without a s rest rest))

partial_taken :
    (cache : SlabCache) (s : Slab) (others : List Slab) (chunk : ℕ) (rest : List ℕ)
    → s.free ≡ chunk ∷ rest
    → cache.slabs_partial ≡ s ∷ others
    → is_valid cache ≡ true
    → Takes cache (from_partial cache s others (chunk ∷ rest))
unfolding is_valid slabs_ok free_at slabs_at Opened Takes
partial_taken cache s others chunk rest f p v =
    let ok : slabs_ok 1 15 (s ∷ others) ≡ true = ap (slabs_ok 1 15) (sym p) ∙ ground (arith, v) in
    let o = opened 1 15 s chunk rest f (ground (arith, ok)) in
    let at : (a : ℕ)
        → slabs_at a cache.slabs_partial
          ≡ (if data_addr s chunk == a then 1 else 0)
            + chunks_at a (without s rest) rest
            + slabs_at a others =
      λ a. ap (slabs_at a) p ∙ ap (λ n. n + slabs_at a others) (left_at a s chunk rest f) in
    let not_full : (sub32 s.num_free 1 == 15) ≡ false = ground (arith, o.0, o.2) in
    elim (Bool-cases (sub32 s.num_free 1 == 0)) [
      | inl last ↦
          let none_left =
            left_ok 1 15 0 0 s chunk rest o (omega arith) (ground (arith, last, o.0, o.2)) in
          (
            record cache { slabs_partial = others; slabs_full = without s rest ∷ cache.slabs_full },
            data_addr s chunk,
            rw (last) refl,
            ground (arith, v, ok, none_left),
            λ a. omega (arith, at a),
          )
      | inr more ↦
          let some_left =
            left_ok 1 15 1 15 s chunk rest o (ground (arith, more, o.0, o.2))
              (omega (arith, o.2)) in
          (
            record cache { slabs_partial = without s rest ∷ others },
            data_addr s chunk,
            rw (more, not_full) refl,
            ground (arith, v, ok, some_left),
            λ a. omega (arith, at a),
          )
    ]

free_taken :
    (cache : SlabCache) (s : Slab) (others : List Slab) (chunk : ℕ) (rest : List ℕ)
    → s.free ≡ chunk ∷ rest
    → cache.slabs_free ≡ s ∷ others
    → is_valid cache ≡ true
    → Takes cache (from_free cache s others (chunk ∷ rest))
unfolding is_valid slabs_ok free_at slabs_at Opened Takes
free_taken cache s others chunk rest f p v =
    let ok : slabs_ok 16 16 (s ∷ others) ≡ true = ap (slabs_ok 16 16) (sym p) ∙ ground (arith, v) in
    let o = opened 16 16 s chunk rest f (ground (arith, ok)) in
    let at : (a : ℕ)
        → slabs_at a cache.slabs_free
          ≡ (if data_addr s chunk == a then 1 else 0)
            + chunks_at a (without s rest) rest
            + slabs_at a others =
      λ a. ap (slabs_at a) p ∙ ap (λ n. n + slabs_at a others) (left_at a s chunk rest f) in
    let not_last : (sub32 s.num_free 1 == 0) ≡ false = ground (arith, o.0, o.1, o.2) in
    let first : (sub32 s.num_free 1 == 15) ≡ true = ground (arith, o.0, o.1, o.2) in
    let some_left = left_ok 16 16 1 15 s chunk rest o (omega (arith, o.1)) (omega (arith, o.2)) in
    (
      record cache { slabs_free = others; slabs_partial = without s rest ∷ cache.slabs_partial },
      data_addr s chunk,
      rw (not_last, first) refl,
      ground (arith, v, ok, some_left),
      λ a. omega (arith, at a),
    )

-- The first free chunk of a slab that has one.
first_chunk :
    (lo hi : ℕ) (s : Slab)
    → slab_ok (suc lo) hi s ≡ true
    → (chunk : ℕ) × (rest : List ℕ) × (s.free ≡ chunk ∷ rest)
unfolding slab_ok
first_chunk lo hi s h = elim (List-cases s.free) [
  | inl e ↦ absurd (ground (arith, h, ap length e))
  | inr c ↦ c
]

from_valid_partial :
    (cache : SlabCache) (s : Slab) (others : List Slab)
    → cache.slabs_partial ≡ s ∷ others
    → is_valid cache ≡ true
    → Takes cache (from_partial cache s others s.free)
unfolding is_valid slabs_ok
from_valid_partial cache s others p v =
    let ok : slabs_ok 1 15 (s ∷ others) ≡ true = ap (slabs_ok 1 15) (sym p) ∙ ground (arith, v) in
    let (chunk, rest, f) = first_chunk 0 15 s (ground (arith, ok)) in
    subst (λ l. Takes cache (from_partial cache s others l)) (sym f)
      (partial_taken cache s others chunk rest f p v)

from_valid_free :
    (cache : SlabCache) (s : Slab) (others : List Slab)
    → cache.slabs_free ≡ s ∷ others
    → is_valid cache ≡ true
    → Takes cache (from_free cache s others s.free)
unfolding is_valid slabs_ok
from_valid_free cache s others p v =
    let ok : slabs_ok 16 16 (s ∷ others) ≡ true = ap (slabs_ok 16 16) (sym p) ∙ ground (arith, v) in
    let (chunk, rest, f) = first_chunk 15 16 s (ground (arith, ok)) in
    subst (λ l. Takes cache (from_free cache s others l)) (sym f)
      (free_taken cache s others chunk rest f p v)

-- The cache with a new slab, all of whose chunks are free.
pub slab_alloc_slab_align-IsValid :
    (new : NewSlab) (cache : SlabCache) (align : ℕ)
    → is_valid cache ≡ true
    → is_valid (slab_alloc_slab_align new cache align) ≡ true
unfolding is_valid slabs_ok slab_ok ascending
slab_alloc_slab_align-IsValid new cache align v = ground (arith, v)

taken :
    (cache : SlabCache) (partial free : List Slab)
    → cache.slabs_partial ≡ partial
    → cache.slabs_free ≡ free
    → is_valid cache ≡ true
    → (new : NewSlab)
    → Takes (grown new cache partial free) (take_chunk (grown new cache partial free))
taken cache (s ∷ others) free p f v new =
    subst (λ l. Takes cache (take_from cache l cache.slabs_free)) (sym p)
      (from_valid_partial cache s others p v)
taken cache [] (s ∷ others) p f v new =
    subst (λ l. Takes cache (take_from cache l cache.slabs_free)) (sym p)
      (subst (λ l. Takes cache (take_from cache [] l)) (sym f) (from_valid_free cache s others f v))
taken cache [] [] p f v new =
    let more = slab_alloc_slab_align new cache cache.alignment in
    let s = fresh_slab cache.size cache.alignment new in
    subst (λ l. Takes more (take_from more l more.slabs_free)) (sym p)
      (from_valid_free more s cache.slabs_free refl
        (slab_alloc_slab_align-IsValid new cache cache.alignment v))

-- An allocation from a valid cache always succeeds: the cache stays valid, and of all addresses
-- exactly the one that is returned is free once less often than before, a new slab included that is
-- added when all the slabs are full.
pub slab_alloc_from_cache_lem :
    (new : NewSlab) (cache : SlabCache)
    → is_valid cache ≡ true
    → Takes (with_slab new cache) (slab_alloc_from_cache new cache)
unfolding slab_alloc_from_cache
slab_alloc_from_cache_lem new cache v =
    taken cache cache.slabs_partial cache.slabs_free refl refl v new
