-- ===== src/Buddy/Slice.antt =====
-- `buddy_slice`: cutting a block of order `start` down to order `target`.
use native.Mathlib.Nat.{pow-suc}
use mathlib.Core.Path.{subst}
use xanadu_os.Base.{
  ℕ, zero, suc, ◌+◌, ◌-◌, ◌*◌, ◌/◌, ◌^◌, ◌≤◌, ◌<◌, ◌≡◌, refl, ap, Bool, false, ◌&&◌, ◌||◌, true,
  ◌∙◌, sym, ==_iff, some, List, ◌∷◌, arith, ltb, leb, ◌==◌, if◌then◌else◌, length, Bool-cases, inl,
  inr,
}
use xanadu_os.Base.Words.{u32, test_bit, set_bit, test_bit-set_bit}
use xanadu_os.Base.Memory.{Words, update, write, write_same, write_other}
use xanadu_os.Buddy.{Buddy, block, set_frame_used, insert_buddy, buddy_slice, addr_to_map_id}

-- The free frames of the first `k` orders.
unfoldable pub free_frames : (k : ℕ) → (ℕ → List ℕ) → ℕ
free_frames zero lists = 0
free_frames (suc k) lists = free_frames k lists + 2 ^ k * length (lists k)

abbrev pub cut : (target start o : ℕ) → Bool
cut target start o = leb target o && ltb o start

-- Whether bit `j` of word `w` of the maps is that of the block at `addr` of an order.
pub own_bit : (base : ℕ → ℕ) → (addr w j o : ℕ) → Bool
unfolding addr_to_map_id
own_bit base addr w j o =
    let id = addr_to_map_id o addr in base o + id.frame_map == w && id.frame == j

-- The same for any of the orders from `start` down to `target`, `start` included.
pub marked_bit : (base : ℕ → ℕ) → (addr w j target start : ℕ) → Bool
unfolding own_bit
marked_bit base addr w j target zero = own_bit base addr w j 0
marked_bit base addr w j target (suc s) =
    let below = marked_bit base addr w j target s in
    own_bit base addr w j (suc s) || (if leb target s then below else false)

-- The bits of the maps that are set by the allocation of `addr`, and no other bit is changed.
unfoldable pub Marks : (target start addr : ℕ) → (b b' : Buddy) → Type 0
Marks target start addr b b' =
    (w j : ℕ)
    → test_bit (b'.map_data w) j
      ≡ (test_bit (b.map_data w) j || marked_bit b.map_base addr w j target start)

or_none : (t : Bool) → t ≡ (t || false)
or_none true = refl
or_none false = refl

set_or : (c t : Bool) → (if c then true else t) ≡ (t || c)
set_or true true = refl
set_or true false = refl
set_or false true = refl
set_or false false = refl

-- A word with one more bit set.
write-set_bit :
    (mem : Words) (i k w j : ℕ)
    → test_bit (write mem i (set_bit (mem i) k) w) j ≡ (test_bit (mem w) j || (i == w && k == j))
write-set_bit mem i k w j = elim (Bool-cases (i == w)) [
  | inl same ↦
      let e : i ≡ w = (==_iff i w).0 same in
      let here : write mem i (set_bit (mem i) k) w ≡ set_bit (mem w) k =
        ap (write mem i (set_bit (mem i) k)) (sym e)
        ∙ write_same mem i (set_bit (mem i) k)
        ∙ ap (λ v. set_bit (mem v) k) e in
      rw same (
        ap (λ v. test_bit v j) here
        ∙ test_bit-set_bit (mem w) k j
        ∙ set_or (k == j) (test_bit (mem w) j))
  | inr other ↦
      let there : write mem i (set_bit (mem i) k) w ≡ mem w =
        write_other mem i (set_bit (mem i) k) w (ground (arith, other)) in
      rw other (ap (λ v. test_bit v j) there ∙ or_none (test_bit (mem w) j))
]

set_frame_used-bit :
    (b : Buddy) (o addr w j : ℕ)
    → test_bit ((set_frame_used b o addr).map_data w) j
      ≡ (test_bit (b.map_data w) j || own_bit b.map_base addr w j o)
unfolding set_frame_used own_bit
set_frame_used-bit b o addr w j =
    let id = addr_to_map_id o addr in
    write-set_bit b.map_data (b.map_base o + id.frame_map) id.frame w j

-- The effect of cutting `addr`.
pub record Sliced (target start addr : ℕ) (b b' : Buddy) : Type 0 where
  pub lists_at :
      (o : ℕ)
      → b'.lists o ≡ (if cut target start o then u32 (addr + block o) ∷ b.lists o else b.lists o)
  pub num_free_at :
      (o : ℕ) → b'.num_free o ≡ (if cut target start o then b.num_free o + 1 else b.num_free o)
  pub nodes_left : b'.nodes + (start - target) ≡ b.nodes
  pub marks : Marks target start addr b b'
  pub same_base : b'.map_base ≡ b.map_base

or_assoc : (a b c : Bool) → ((a || b) || c) ≡ (a || (b || c))
or_assoc true b c = refl
or_assoc false b c = refl

marked_last :
    (base : ℕ → ℕ) (addr w j o : ℕ) → marked_bit base addr w j o o ≡ own_bit base addr w j o
unfolding marked_bit
marked_last base addr w j zero = refl
marked_last base addr w j (suc o) =
    let none_below : leb (suc o) o ≡ false = ground arith in
    ap
      (λ b.
        own_bit base addr w j (suc o) || (if b then marked_bit base addr w j (suc o) o else false))
      none_below
    ∙ sym (or_none (own_bit base addr w j (suc o)))

marked_more :
    (base : ℕ → ℕ) (addr w j target s : ℕ)
    → target ≤ s
    → marked_bit base addr w j target (suc s)
      ≡ (own_bit base addr w j (suc s) || marked_bit base addr w j target s)
unfolding marked_bit
marked_more base addr w j target s h =
    let below : leb target s ≡ true = ground (arith, h) in
    ap
      (λ b.
        own_bit base addr w j (suc s) || (if b then marked_bit base addr w j target s else false))
      below

-- The bits of the block of the order `s + 1`, and of those below, one after the other.
Marks-next :
    (target s addr : ℕ) (b b1 b' : Buddy)
    → target ≤ s
    → b1.map_base ≡ b.map_base
    → b1.map_data ≡ (set_frame_used b (suc s) addr).map_data
    → Marks target s addr b1 b'
    → Marks target (suc s) addr b b'
unfolding Marks
Marks-next target s addr b b1 b' h base data_of m w j =
    m w j
    ∙ ap (λ c. test_bit (b1.map_data w) j || marked_bit c addr w j target s) base
    ∙ ap (λ (f : Words). test_bit (f w) j || marked_bit b.map_base addr w j target s) data_of
    ∙ ap (λ t. t || marked_bit b.map_base addr w j target s) (set_frame_used-bit b (suc s) addr w j)
    ∙ or_assoc (test_bit (b.map_data w) j) (own_bit b.map_base addr w j (suc s))
        (marked_bit b.map_base addr w j target s)
    ∙ ap (λ t. test_bit (b.map_data w) j || t) (sym (marked_more b.map_base addr w j target s h))

-- The bit of one block.
pub set_frame_used-Marks : (b : Buddy) (o addr : ℕ) → Marks o o addr b (set_frame_used b o addr)
unfolding Marks
set_frame_used-Marks b o addr w j =
    set_frame_used-bit b o addr w j
    ∙ ap (λ t. test_bit (b.map_data w) j || t) (sym (marked_last b.map_base addr w j o))

half-block : (s addr : ℕ) → u32 (addr + block (suc s) / 2) ≡ u32 (addr + block s)
half-block s addr =
    let e : block (suc s) / 2 ≡ block s = omega (arith, ap (λ t. 4096 * t) (pow-suc 2 s)) in
    ap (λ t. u32 (addr + t)) e

pub set_frame_used-frame :
    (b : Buddy) (o addr : ℕ)
    → let b' = set_frame_used b o addr in
      (b'.lists ≡ b.lists)
      × (b'.num_free ≡ b.num_free)
      × (b'.nodes ≡ b.nodes)
      × (b'.map_base ≡ b.map_base)
unfolding set_frame_used
set_frame_used-frame b o addr = (refl, refl, refl, refl)

-- What `insert_buddy` does when the slab cache has a node.
abbrev pub pushed : Buddy → (order addr : ℕ) → Buddy
pushed b order addr = record b {
  nodes = b.nodes - 1;
  lists = update b.lists order (addr ∷ b.lists order);
  num_free = update b.num_free order (b.num_free order + 1);
}

pub insert_buddy-pushed :
    (b : Buddy) (o addr : ℕ) → 0 < b.nodes → insert_buddy b o addr ≡ (pushed b o addr, 0)
unfolding insert_buddy
insert_buddy-pushed b o addr h = let e : (b.nodes == 0) ≡ false = ground arith in rw e

-- With a node for each order on the way, the cut succeeds with the given address; every order from
-- `target` to below `start` gets the upper half of the block that was cut at the order above.
pub buddy_slice_lem :
    (start : ℕ) (b : Buddy) (addr target : ℕ)
    → target < start
    → start - target ≤ b.nodes
    → let (b', r) = buddy_slice start b addr target in
      (r ≡ some addr) × Sliced target start addr b b'
unfolding buddy_slice
buddy_slice_lem zero b addr target h n = absurd (omega arith)
buddy_slice_lem (suc s) b addr target h n =
    let b0 = set_frame_used b (suc s) addr in
    let upper = u32 (addr + block (suc s) / 2) in
    let (same_lists, same_free, same_nodes, same_base) = set_frame_used-frame b (suc s) addr in
    let b1 = pushed b0 s upper in
    let last = set_frame_used b1 target addr in
    let (last_lists, last_free, last_nodes, last_base) = set_frame_used-frame b1 target addr in
    elim (Bool-cases (ltb target s)) [
      | inl deeper ↦
          let (e, sl) = buddy_slice_lem s b1 addr target (ground arith) (ground arith) in
          rw (insert_buddy-pushed b0 s upper (omega arith), deeper)
            (
              e,
              record {
                lists_at = λ o. ground (
                  arith,
                  sl.lists_at o,
                  ap (λ (f : ℕ → List ℕ). f o) same_lists,
                  ap (λ (f : ℕ → List ℕ). f s) same_lists,
                  half-block s addr,
                );
                num_free_at = λ o. ground (
                  arith,
                  sl.num_free_at o,
                  ap (λ (f : ℕ → ℕ). f o) same_free,
                  ap (λ (f : ℕ → ℕ). f s) same_free,
                );
                nodes_left = ground (arith, sl.nodes_left);
                marks =
                    Marks-next target s addr b b1 _ (ground (arith, deeper)) same_base refl
                      sl.marks;
                same_base = sl.same_base ∙ same_base;
              },
            )
      | inr bottom ↦
          let same : target ≡ s = ground arith in
          rw (insert_buddy-pushed b0 s upper (omega arith), bottom)
            (
              refl,
              record {
                lists_at = λ o. ground (
                  arith,
                  ap (λ (f : ℕ → List ℕ). f o) last_lists,
                  ap (λ (f : ℕ → List ℕ). f o) same_lists,
                  ap (λ (f : ℕ → List ℕ). f s) same_lists,
                  half-block s addr,
                );
                num_free_at = λ o. ground (
                  arith,
                  ap (λ (f : ℕ → ℕ). f o) last_free,
                  ap (λ (f : ℕ → ℕ). f o) same_free,
                  ap (λ (f : ℕ → ℕ). f s) same_free,
                );
                nodes_left = omega arith;
                marks = Marks-next target s addr b b1 last (omega (arith, same)) same_base refl (
                    subst (λ k. Marks target k addr b1 last) same
                      (set_frame_used-Marks b1 target addr));
                same_base = last_base ∙ same_base;
              },
            )
    ]
