-- ===== src/Slab/Give.antt =====
-- Which chunks can be released, and what a release gives back to a cache.
use xanadu_os.Base.{
  ℕ, zero, suc, ◌+◌, ◌≤◌, ◌<◌, ◌≡◌, ◌≢◌, ◌∙◌, refl, ap, Bool, true, false, ◌||◌, Option, none, some,
  List, [], ◌∷◌, ◌==◌, arith, Bool-cases, inl, inr,
}
use xanadu_os.Slab.{
  Slab, SlabCache, Search, found, absent, unwritten, Place, in_free, in_partial, in_full,
  slab_capacity, data_addr, seek_chunk, search_behind, chunk_found, chunk_before, is_free,
  slab_free, or_else,
}
use xanadu_os.Slab.Chunks.{is_valid, chunks_at, slabs_at, free_at, slabs_at-append}
use xanadu_os.Slab.Put.{Gives, IsAt, slabs_of, put_back_lem}

abbrev pub is_some : Option ℕ → Bool
is_some none = false
is_some (some c) = true

-- Whether a list of slabs has a chunk at an address.
unfoldable pub has_chunk : (addr : ℕ) → List Slab → Bool
has_chunk addr [] = false
has_chunk addr (s ∷ slabs) = is_some (seek_chunk s addr slab_capacity 0) || has_chunk addr slabs

-- A search for an address that finds a chunk of it, or nothing when no slab has one.
Finds : (addr : ℕ) → List Slab → Search → Type 0
Finds addr slabs (found w) = IsAt addr slabs w
Finds addr slabs absent = has_chunk addr slabs ≡ false
Finds addr slabs unwritten = has_chunk addr slabs ≡ false

Sought : (s : Slab) (addr n i : ℕ) → Option ℕ → Type 0
Sought s addr n i none = n ≡ n
Sought s addr n i (some c) = (i ≤ c) × (c < i + n) × (data_addr s c ≡ addr)

later_chunk :
    (s : Slab) (addr n i : ℕ) (o : Option ℕ) → Sought s addr n (i + 1) o → Sought s addr (suc n) i o
unfolding Sought
later_chunk s addr n i none h = refl
later_chunk s addr n i (some c) (l, h, e) = (omega arith, omega arith, e)

seek_chunk_lem : (s : Slab) (addr n i : ℕ) → Sought s addr n i (seek_chunk s addr n i)
unfolding Sought
seek_chunk_lem s addr zero i = refl
seek_chunk_lem s addr (suc n) i = elim (Bool-cases (data_addr s i == addr)) [
  | inl here ↦ rw here (omega arith, omega arith, ground (arith, here))
  | inr later ↦
      rw later
        (later_chunk s addr n i (seek_chunk s addr n (i + 1)) (seek_chunk_lem s addr n (i + 1)))
]

later_slab :
    (addr : ℕ) (s : Slab) (slabs : List Slab) (r : Search)
    → is_some (seek_chunk s addr slab_capacity 0) ≡ false
    → Finds addr slabs r
    → Finds addr (s ∷ slabs) (search_behind s r)
unfolding Finds has_chunk
later_slab addr s slabs (found w) n (e, c, d) = (ap (λ l. s ∷ l) e, c, d)
later_slab addr s slabs absent n h = rw n h
later_slab addr s slabs unwritten n h = rw n h

-- The chunk of the first slab, or the search behind it.
this_slab :
    (addr : ℕ) (s : Slab) (slabs : List Slab) (r : Search) (o : Option ℕ)
    → seek_chunk s addr slab_capacity 0 ≡ o
    → Sought s addr 16 0 o
    → Finds addr slabs r
    → Finds addr (s ∷ slabs) (chunk_found s slabs o (search_behind s r))
unfolding Sought Finds
this_slab addr s slabs r none e h f = later_slab addr s slabs r (ap is_some e) f
this_slab addr s slabs r (some c) e (l, h, d) f = (refl, omega arith, d)

chunk_before_lem : (addr : ℕ) (slabs : List Slab) → Finds addr slabs (chunk_before addr slabs)
unfolding chunk_before Finds has_chunk
chunk_before_lem addr [] = refl
chunk_before_lem addr (s ∷ slabs) =
    this_slab addr s slabs (chunk_before addr slabs) (seek_chunk s addr slab_capacity 0) refl
      (seek_chunk_lem s addr 16 0) (chunk_before_lem addr slabs)

-- An address that is not free is not that of a free chunk.
not_free :
    (addr : ℕ) (s : Slab) (chunk : ℕ) (l : List ℕ)
    → data_addr s chunk ≡ addr
    → chunks_at addr s l ≡ 0
    → is_free chunk l ≡ false
unfolding chunks_at
not_free addr s chunk [] e h = refl
not_free addr s chunk (c ∷ cs) e h =
    let at : c ≡ chunk → data_addr s c ≡ addr = λ same. ap (data_addr s) same ∙ e in
    let other : (c == chunk) ≡ false = elim (Bool-cases (c == chunk)) [
      | inl same ↦ absurd (ground (arith, h, at (ground (arith, same))))
      | inr differ ↦ differ
    ] in
    rw other (not_free addr s chunk cs e (ground (arith, h)))

place_at :
    (place : Place) (addr : ℕ) (cache : SlabCache)
    → slabs_at addr (slabs_of place cache) ≤ free_at addr cache
unfolding free_at
place_at in_free addr cache = omega arith
place_at in_partial addr cache = omega arith
place_at in_full addr cache = omega arith

-- A search in one of the lists, and what is done when it finds nothing.
or_else_lem :
    (place : Place) (cache : SlabCache) (obj : ℕ) (r : Search) (otherwise : Option SlabCache)
    → is_valid cache ≡ true
    → free_at obj cache ≡ 0
    → Finds obj (slabs_of place cache) r
    → (has_chunk obj (slabs_of place cache) ≡ false → Gives cache obj otherwise)
    → Gives cache obj (or_else place cache r otherwise)
unfolding Finds
or_else_lem place cache obj (found w) otherwise v z (e, c, d) next =
    let at = ap (slabs_at obj) e ∙ slabs_at-append obj w.before w.slab w.after in
    put_back_lem place cache obj w (e, c, d)
      (not_free obj w.slab w.chunk w.slab.free d (omega (arith, place_at place obj cache, at, z))) v
or_else_lem place cache obj absent otherwise v z h next = next h
or_else_lem place cache obj unwritten otherwise v z h next = next h

-- Without alignment, a chunk of any slab of a valid cache can be released when its address is not
-- free: `slab_free` succeeds, the cache stays valid, and exactly this address is free once more.
pub slab_free_lem :
    (cache : SlabCache) (obj : ℕ)
    → is_valid cache ≡ true
    → cache.alignment ≡ 0
    → obj ≢ 0
    → free_at obj cache ≡ 0
    → (has_chunk obj cache.slabs_partial
        || has_chunk obj cache.slabs_full
        || has_chunk obj cache.slabs_free)
      ≡ true
    → Gives cache obj (slab_free cache obj)
unfolding slab_free
slab_free_lem cache obj v al nz z h =
    let nonzero : (obj == 0) ≡ false = ground (arith, nz) in
    let unaligned : (cache.alignment == 0) ≡ true = ground (arith, al) in
    rw (nonzero, unaligned)
      (or_else_lem in_partial cache obj (chunk_before obj cache.slabs_partial) _ v z
        (chunk_before_lem obj cache.slabs_partial)
        (λ a.
          or_else_lem in_full cache obj (chunk_before obj cache.slabs_full) _ v z
            (chunk_before_lem obj cache.slabs_full)
            (λ b.
              or_else_lem in_free cache obj (chunk_before obj cache.slabs_free) none v z
                (chunk_before_lem obj cache.slabs_free)
                (λ c. absurd (ground (arith, a, b, c, h))))))
