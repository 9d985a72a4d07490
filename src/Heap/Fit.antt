-- ===== src/Heap/Fit.antt =====
-- Where an allocation places its data.
use xanadu_os.Base.{
  ℕ, zero, suc, ◌+◌, ◌*◌, ◌/◌, ◌%◌, ◌^◌, ◌≤◌, ◌<◌, ◌≡◌, ◌∙◌, refl, ap, true, false, Option, some,
  ltb, ◌==◌, if◌then◌else◌, arith, Bool-cases, inl, inr,
}
use mathlib.Core.Path.{subst}
use xanadu_os.Base.Words.{u32, sub32}
use xanadu_os.Base.Memory.{update_same}
use native.Mathlib.Nat.{div-add-mod', add-mul, add-mul-mod_self_right, mod-lt, mod-eq_of_lt}
use xanadu_os.Paging.{pt_size}
use xanadu_os.Heap.{
  Heap, Hole, fitting, last_seen, out_of_fuel, find_hole, fits, data_in, align_up, do_alloc, claim,
  map_critical_dist, claimed, cuts, cut_block, expand_heap, alloc_at, kmalloc_align, header_size,
}

-- The multiple of an alignment that `align_up` gives.
align_up_lem :
    (num a : ℕ)
    → 0 < a
    → num + a < 2 ^ 32
    → (align_up num a % a ≡ 0) × (num ≤ align_up num a) × (align_up num a < num + a)
align_up_lem num a p h =
    let q = num / a in
    let parts : num / a * a + num % a ≡ num = div-add-mod' num a in
    let small : num % a < a = mod-lt num p in
    let none_left : 0 % a ≡ 0 = mod-eq_of_lt p in
    elim (Bool-cases (num % a == 0)) [
      | inl whole ↦
          let r : num % a ≡ 0 = ground (arith, whole) in
          let value : align_up num a ≡ 0 + q * a = rw whole (omega (arith, r, parts, h)) in
          (
            ap (λ x. x % a) value ∙ add-mul-mod_self_right 0 q a ∙ none_left,
            omega (arith, value, parts, r),
            omega (arith, value, parts, r, p),
          )
      | inr rest ↦
          let some_left : 0 < num % a = ground (arith, rest) in
          let twice = add-mul q 1 a in
          let value : align_up num a ≡ 0 + (q + 1) * a =
            rw rest (omega (arith, parts, small, twice, h)) in
          (
            ap (λ x. x % a) value ∙ add-mul-mod_self_right 0 (q + 1) a ∙ none_left,
            omega (arith, value, parts, small, twice),
            omega (arith, value, parts, some_left, twice),
          )
    ]

-- A search that ends with a hole ends with one that fits.
Fitting : Heap → (size alignment : ℕ) → Hole → Type 0
Fitting s size alignment (fitting h) = fits s h size alignment ≡ true
Fitting s size alignment (last_seen h) = h ≡ h
Fitting s size alignment out_of_fuel = size ≡ size

find_hole-Fitting :
    (fuel : ℕ) (s : Heap) (header last size alignment : ℕ)
    → Fitting s size alignment (find_hole fuel s header last size alignment)
unfolding find_hole Fitting
find_hole-Fitting zero s header last size alignment = refl
find_hole-Fitting (suc n) s header last size alignment = elim (Bool-cases (header == 0)) [
  | inl z ↦ rw z refl
  | inr nz ↦ elim (Bool-cases (fits s header size alignment)) [
    | inl f ↦ rw (nz, f) f
    | inr g ↦ rw (nz, g) (find_hole-Fitting n s (s.blocks header).next_hole header size alignment)
  ]
]

-- An allocation in a hole succeeds when pages can be mapped: it returns the data of the hole, and the
-- block is allocated.
pub Allocates : (header data_base : ℕ) → Option (Heap × ℕ) → Type 0
Allocates header data_base result =
    (s' : Heap) × (result ≡ some (s', data_base)) × ((s'.blocks header).is_hole ≡ false)

claim-Allocates :
    (mapped : ℕ → ℕ → ℕ) (header data_base : ℕ) (s : Heap)
    → ((addr pages : ℕ) → mapped addr pages ≡ 0)
    → (s.blocks header).is_hole ≡ false
    → Allocates header data_base (claim mapped header data_base s)
unfolding claim expand_heap Allocates
claim-Allocates mapped header data_base s m h =
    elim (Bool-cases (ltb (sub32 s.heap_end_addr map_critical_dist) (s.blocks header).next)) [
      | inl near ↦
          let s' = (expand_heap mapped header 1 s).0 in
          rw (near, m s.heap_end_addr (u32 (pt_size * 1)))
            (s', refl, ap (λ b. b.is_hole) (update_same s.blocks header _) ∙ h)
      | inr far ↦ rw far (s, refl, h)
    ]

do_alloc-Allocates :
    (mapped : ℕ → ℕ → ℕ) (header size data_base : ℕ) (s : Heap)
    → ((addr pages : ℕ) → mapped addr pages ≡ 0)
    → Allocates header data_base (do_alloc mapped header size data_base s)
unfolding do_alloc
do_alloc-Allocates mapped header size data_base s m =
    let s1 = if cuts (s.blocks header) size then cut_block s header size data_base else s in
    claim-Allocates mapped header data_base (claimed s1 header size) m
      (ap (λ b. b.is_hole) (update_same s1.blocks header _))

-- The data of a hole that fits a size.
in_hole :
    (s : Heap) (header size a : ℕ)
    → 0 < a
    → header + 32 + a < 2 ^ 32
    → size + 32 + a < 2 ^ 32
    → fits s header size a ≡ true
    → (data_in header a % a ≡ 0)
      × (header + 32 ≤ data_in header a)
      × (data_in header a + size ≤ header + (s.blocks header).size)
      × ((s.blocks header).is_hole ≡ true)
in_hole s header size a p h z f =
    let base : u32 (header + header_size) ≡ header + 32 = omega (arith, h) in
    let up = align_up_lem (u32 (header + header_size)) a p (omega (arith, base, h)) in
    let enough : u32 (size + sub32 (data_in header a) header) ≤ (s.blocks header).size =
      ground (arith, f) in
    let hole : (s.blocks header).is_hole ≡ true = ground (arith, f) in
    (up.0, omega (arith, base, up.1), omega (arith, base, up.1, up.2, enough, z, h), hole)

-- When the search of `kmalloc_align` ends at a hole and pages can be mapped, the allocation succeeds:
-- the data is aligned, lies behind the header and within the hole, and the block is no hole any more.
pub kmalloc_align_lem :
    (mapped : ℕ → ℕ → ℕ) (fuel siz a header : ℕ) (s : Heap)
    → 0 < a
    → 0 < siz
    → siz + 32 + 2 * a < 2 ^ 32
    → header + 32 + a < 2 ^ 32
    → ((from pages : ℕ) → mapped from pages ≡ 0)
    → find_hole fuel s s.heap_base_addr 0 (align_up siz a) a ≡ fitting header
    → (addr : ℕ) × Allocates header addr (kmalloc_align mapped fuel siz a s)
      × (addr % a ≡ 0)
      × (header + 32 ≤ addr)
      × (addr + siz ≤ header + (s.blocks header).size)
      × ((s.blocks header).is_hole ≡ true)
unfolding kmalloc_align alloc_at Fitting
kmalloc_align_lem mapped fuel siz a header s p z small hs m found =
    let nonzero : (siz == 0) ≡ false = ground (arith, z) in
    let given : (a == 0) ≡ false = ground (arith, p) in
    let up = align_up_lem siz a p (omega (arith, small)) in
    let fit : fits s header (align_up siz a) a ≡ true =
      subst (Fitting s (align_up siz a) a) found
        (find_hole-Fitting fuel s s.heap_base_addr 0 (align_up siz a) a) in
    let at = in_hole s header (align_up siz a) a p hs (omega (arith, up.2, small)) fit in
    (
      data_in header a,
      rw (nonzero, given, found)
          (do_alloc-Allocates mapped header (align_up siz a) (data_in header a) s m),
      at.0,
      at.1,
      omega (arith, at.2, up.1),
      at.3,
    )
