-- ===== src/Slab/Chunks.antt =====
-- What a well-formed slab is, and which addresses are free.
use xanadu_os.Base.{
  ℕ, suc, ◌+◌, ◌≤◌, ◌<◌, ◌≡◌, refl, Bool, true, false, ◌&&◌, List, [], ◌∷◌, ◌++◌, ltb, leb, ◌==◌,
  if◌then◌else◌, arith, length, max, Bool-cases, inl, inr,
}
use xanadu_os.Slab.{Slab, SlabCache, slab_capacity, data_addr, insert_behind, insert_free, is_free}

-- Strictly ascending numbers of chunks, none below `lo`.
unfoldable pub ascending : (lo : ℕ) → List ℕ → Bool
ascending lo [] = true
ascending lo (c ∷ cs) = leb lo c && ltb c slab_capacity && ascending (c + 1) cs

-- A slab whose number of free chunks is right and within bounds.
unfoldable pub slab_ok : (lo hi : ℕ) → Slab → Bool
slab_ok lo hi s =
    ascending 0 s.free && s.num_free == length s.free && leb lo s.num_free && leb s.num_free hi

unfoldable pub slabs_ok : (lo hi : ℕ) → List Slab → Bool
slabs_ok lo hi [] = true
slabs_ok lo hi (s ∷ slabs) = slab_ok lo hi s && slabs_ok lo hi slabs

-- Each list of a cache has the slabs that belong to it.
unfoldable pub is_valid : SlabCache → Bool
is_valid cache =
    slabs_ok 16 16 cache.slabs_free
    && slabs_ok 1 15 cache.slabs_partial
    && slabs_ok 0 0 cache.slabs_full

-- How often an address is that of a free chunk.
unfoldable pub chunks_at : (addr : ℕ) → Slab → List ℕ → ℕ
chunks_at addr s [] = 0
chunks_at addr s (c ∷ cs) = (if data_addr s c == addr then 1 else 0) + chunks_at addr s cs

unfoldable pub slabs_at : (addr : ℕ) → List Slab → ℕ
slabs_at addr [] = 0
slabs_at addr (s ∷ slabs) = chunks_at addr s s.free + slabs_at addr slabs

unfoldable pub free_at : (addr : ℕ) → SlabCache → ℕ
free_at addr cache =
    slabs_at addr cache.slabs_free
    + slabs_at addr cache.slabs_partial
    + slabs_at addr cache.slabs_full

pub ascending-length : (lo : ℕ) (l : List ℕ) → ascending lo l ≡ true → length l + lo ≤ max lo 16
unfolding ascending
ascending-length lo [] h = ground arith
ascending-length lo (c ∷ cs) h =
    let tail : ascending (c + 1) cs ≡ true = ground (arith, h) in
    ground (arith, h, ascending-length (c + 1) cs tail)

pub ascending_weaken :
    (lo hi : ℕ) (l : List ℕ) → lo ≤ hi → ascending hi l ≡ true → ascending lo l ≡ true
unfolding ascending
ascending_weaken lo hi [] b h = refl
ascending_weaken lo hi (c ∷ cs) b h = ground arith

pub insert_behind-ascending :
    (chunk lo : ℕ) (l : List ℕ)
    → ascending lo l ≡ true
    → lo ≤ chunk
    → chunk < 16
    → is_free chunk l ≡ false
    → ascending lo (insert_behind chunk l) ≡ true
unfolding ascending
insert_behind-ascending chunk lo [] h b c f = ground arith
insert_behind-ascending chunk lo (d ∷ l) h b c f =
    let tail : ascending (d + 1) l ≡ true = ground (arith, h) in
    let others : is_free chunk l ≡ false = ground (arith, f) in
    elim (Bool-cases (ltb d chunk)) [
      | inl less ↦ ground (
        arith,
        less,
        h,
        insert_behind-ascending chunk (d + 1) l tail (ground (arith, less)) c others,
      )
      | inr more ↦ ground (arith, more, h, f, b, c)
    ]

pub insert_behind-length :
    (chunk : ℕ) (l : List ℕ) → length (insert_behind chunk l) ≡ suc (length l)
insert_behind-length chunk [] = refl
insert_behind-length chunk (d ∷ l) = ground (arith, insert_behind-length chunk l)

pub insert_behind-chunks_at :
    (chunk addr : ℕ) (s : Slab) (l : List ℕ)
    → chunks_at addr s (insert_behind chunk l) ≡ chunks_at addr s (chunk ∷ l)
unfolding chunks_at
insert_behind-chunks_at chunk addr s [] = refl
insert_behind-chunks_at chunk addr s (d ∷ l) =
    ground (arith, insert_behind-chunks_at chunk addr s l)

pub insert_free-ascending :
    (chunk : ℕ) (l : List ℕ)
    → ascending 0 l ≡ true
    → chunk < 16
    → is_free chunk l ≡ false
    → ascending 0 (insert_free chunk l) ≡ true
unfolding ascending
insert_free-ascending chunk [] h c f = ground arith
insert_free-ascending chunk (d ∷ l) h c f =
    let tail : ascending (d + 1) l ≡ true = ground (arith, h) in
    let others : is_free chunk l ≡ false = ground (arith, f) in
    elim (Bool-cases (ltb chunk d)) [
      | inl less ↦ ground (arith, less, h, f, c)
      | inr more ↦ ground (
        arith,
        more,
        h,
        insert_behind-ascending chunk (d + 1) l tail (ground (arith, more, f)) c others,
      )
    ]

pub insert_free-length : (chunk : ℕ) (l : List ℕ) → length (insert_free chunk l) ≡ suc (length l)
insert_free-length chunk [] = refl
insert_free-length chunk (d ∷ l) = ground (arith, insert_behind-length chunk l)

pub insert_free-chunks_at :
    (chunk addr : ℕ) (s : Slab) (l : List ℕ)
    → chunks_at addr s (insert_free chunk l) ≡ chunks_at addr s (chunk ∷ l)
unfolding chunks_at
insert_free-chunks_at chunk addr s [] = refl
insert_free-chunks_at chunk addr s (d ∷ l) = ground (arith, insert_behind-chunks_at chunk addr s l)

pub slabs_ok-append :
    (lo hi : ℕ) (a : List Slab) (s : Slab) (b : List Slab)
    → slabs_ok lo hi (a ++ s ∷ b) ≡ (slab_ok lo hi s && slabs_ok lo hi (a ++ b))
unfolding slabs_ok
slabs_ok-append lo hi [] s b = refl
slabs_ok-append lo hi (x ∷ a) s b = ground (arith, slabs_ok-append lo hi a s b)

pub slabs_at-append :
    (addr : ℕ) (a : List Slab) (s : Slab) (b : List Slab)
    → slabs_at addr (a ++ s ∷ b) ≡ chunks_at addr s s.free + slabs_at addr (a ++ b)
unfolding slabs_at
slabs_at-append addr [] s b = refl
slabs_at-append addr (x ∷ a) s b = ground (arith, slabs_at-append addr a s b)
