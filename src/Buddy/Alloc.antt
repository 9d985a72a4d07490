-- ===== src/Buddy/Alloc.antt =====
-- `buddy_alloc_frames_max_order`: no free frame is lost or made up.
use native.Mathlib.Nat.{pow-suc}
use xanadu_os.Base.{
  ℕ, zero, suc, ◌+◌, ◌-◌, ◌^◌, ◌≤◌, ◌<◌, ◌≡◌, ◌⊎◌, inl, inr, ◌∙◌, refl, ap, some, true, false, List,
  [], ◌∷◌, arith, ltb, ◌==◌, ==_iff, if◌then◌else◌, length, Bool-cases,
}
use xanadu_os.Base.Words.{u32}
use xanadu_os.Base.Memory.{update}
use xanadu_os.Base.Errors.{enomem}
use xanadu_os.Buddy.{
  Buddy, Outcome, allocated, failed, get_buddy_order, set_frame_used, remove_free_head, buddy_slice,
  block, upper_loop, buddy_alloc_frames_max_order,
}
use xanadu_os.Buddy.Order.{get_buddy_order-le}
use xanadu_os.Buddy.Slice.{free_frames, cut, Marks, set_frame_used-Marks, Sliced, buddy_slice_lem}

-- `num_free` counts the nodes of each list.
pub record IsValid (b : Buddy) : Type 0 where
  pub counted : (o : ℕ) → b.num_free o ≡ length (b.lists o)

List-cases : (l : List ℕ) → (l ≡ []) ⊎ ((a : ℕ) × (r : List ℕ) × (l ≡ a ∷ r))
List-cases [] = inl refl
List-cases (a ∷ r) = inr (a, r, refl)

equal_pow : (a b : ℕ) → a ≡ b → 2 ^ a ≡ 2 ^ b
equal_pow a b e = ap (λ t. 2 ^ t) e

free_frames-Sliced :
    {target start addr : ℕ} {b b' : Buddy} (k : ℕ)
    → Sliced target start addr b b'
    → target < start
    → free_frames k b'.lists + 2 ^ target
      ≡ free_frames k b.lists
        + (if ltb k target then 2 ^ target else if ltb k start then 2 ^ k else 2 ^ start)
unfolding free_frames
free_frames-Sliced zero s h = ground arith
free_frames-Sliced {target} {start} {addr} {b} {b'} (suc k) s h =
    let ih = free_frames-Sliced k s h in
    elim (Bool-cases (cut target start k)) [
      | inl in_cut ↦
          let new : length (b'.lists k) ≡ suc (length (b.lists k)) =
            ap length (s.lists_at k) ∙ (rw in_cut) in
          rw new (ground (arith, ih, pow-suc 2 k))
      | inr outside ↦
          let old : length (b'.lists k) ≡ length (b.lists k) =
            ap length (s.lists_at k) ∙ (rw outside) in
          rw old (ground (arith, ih, pow-suc 2 k, equal_pow k target, equal_pow k start))
    ]

free_frames-update :
    (lists : ℕ → List ℕ) (o a : ℕ) (l : List ℕ) (k : ℕ)
    → lists o ≡ a ∷ l
    → free_frames k (update lists o l) + (if ltb o k then 2 ^ o else 0) ≡ free_frames k lists
unfolding free_frames
free_frames-update lists o a l zero e = ground arith
free_frames-update lists o a l (suc k) e =
    let ih = free_frames-update lists o a l k e in
    elim (Bool-cases (o == k)) [
      | inl same ↦
          let s : o ≡ k = (==_iff o k).0 same in
          let old : length (lists k) ≡ suc (length l) = (rw (← s) (ap length e)) in
          let new : length (update lists o l k) ≡ length l = (rw same) in
          let p : 2 ^ o ≡ 2 ^ k = equal_pow o k s in
          let below : ltb o k ≡ false = (rw s (ground arith)) in
          let above : ltb o (suc k) ≡ true = (rw s (ground arith)) in
          rw (new, old, above) (omega (arith, rw below at ih, p))
      | inr other ↦
          let keep : length (update lists o l k) ≡ length (lists k) = (rw other) in
          rw keep (ground (arith, ih))
    ]

-- How a block is given, when the orders from `low` on are searched: `a` is the first free block of the
-- first order, `at`, that has one. It is taken off its list; the upper halves of the cuts down to
-- `order` are listed; and of the maps exactly the bits of `a` at the orders from `order` to `at` are set.
pub record Gives (order low a : ℕ) (b b' : Buddy) : Type 0 where
  pub at : ℕ
  pub others : List ℕ
  pub not_below : low ≤ at
  pub in_range : at ≤ 10
  pub smaller_empty : (o : ℕ) → low ≤ o → o < at → b.lists o ≡ []
  pub first_free : b.lists at ≡ a ∷ others
  pub lists_at :
      (o : ℕ)
      → b'.lists o ≡ (
          if at == o
          then others
          else if cut order at o
          then u32 (a + block o) ∷ b.lists o
          else b.lists o)
  pub marks : Marks order at a b b'

-- The outcome of an allocation at an order: a block, or no memory in the orders from `from` on.
abbrev pub Result : (order from : ℕ) → Buddy → Buddy × Outcome → Type 0
Result order from b (b', r) =
    ((a : ℕ) × (r ≡ allocated a)
      × IsValid b'
      × (free_frames 11 b'.lists + 2 ^ order ≡ free_frames 11 b.lists)
      × Gives order from a b b')
    ⊎ ((r ≡ failed enomem) × (b' ≡ b) × ((o : ℕ) → from ≤ o → o ≤ 10 → b.lists o ≡ []))

nil_of_count : (l : List ℕ) → length l ≡ 0 → l ≡ []
nil_of_count [] h = refl
nil_of_count (a ∷ l) h = absurd (omega arith)

-- The allocator with the head of list `o` taken off.
abbrev popped : Buddy → (o : ℕ) → List ℕ → Buddy
popped b o l = record b {
  nodes = b.nodes + 1;
  lists = update b.lists o l;
  num_free = update b.num_free o (b.num_free o - 1);
}

remove_free_head-popped :
    (b : Buddy) (o a : ℕ) (l : List ℕ)
    → IsValid b
    → b.lists o ≡ a ∷ l
    → remove_free_head b o ≡ popped b o l
unfolding remove_free_head
remove_free_head-popped b o a l v e =
    let some_free : (b.num_free o == 0) ≡ false = ground (arith, v.counted o, ap length e) in
    rw (some_free, e)

popped-IsValid :
    (b : Buddy) (o a : ℕ) (l : List ℕ) → IsValid b → b.lists o ≡ a ∷ l → IsValid (popped b o l)
popped-IsValid b o a l v e = record {
  counted = λ k. elim (Bool-cases (o == k)) [
    | inl same ↦
        let s : o ≡ k = (==_iff o k).0 same in rw same (omega (arith, v.counted o, ap length e))
    | inr other ↦ rw other (v.counted k)
  ];
}

Sliced-IsValid :
    {target start addr : ℕ} {b b' : Buddy} → Sliced target start addr b b' → IsValid b → IsValid b'
Sliced-IsValid {target} {start} {addr} {b} {b'} s v = record {
  counted = λ o. elim (Bool-cases (cut target start o)) [
    | inl in_cut ↦
        let n : b'.num_free o ≡ b.num_free o + 1 = s.num_free_at o ∙ (rw in_cut) in
        let l : length (b'.lists o) ≡ suc (length (b.lists o)) =
          ap length (s.lists_at o) ∙ (rw in_cut) in
        omega (arith, v.counted o)
    | inr outside ↦
        let n : b'.num_free o ≡ b.num_free o = s.num_free_at o ∙ (rw outside) in
        let l : length (b'.lists o) ≡ length (b.lists o) =
          ap length (s.lists_at o) ∙ (rw outside) in
        omega (arith, v.counted o)
  ];
}

-- A search that meets a free block cuts it.
upper_loop-hit :
    (k i : ℕ) (b : Buddy) (order a : ℕ) (l : List ℕ)
    → IsValid b
    → b.lists i ≡ a ∷ l
    → (buddy_slice i (popped b i l) a order).1 ≡ some a
    → upper_loop (suc k) i b order ≡ ((buddy_slice i (popped b i l) a order).0, allocated a)
unfolding upper_loop
upper_loop-hit k i b order a l v found ok =
    let some_free : (b.num_free i == 0) ≡ false = ground (arith, v.counted i, ap length found) in
    let pop = remove_free_head-popped b i a l v found in rw (some_free, found, pop, ok, pop)

Gives-widen :
    (order i a : ℕ) (b b' : Buddy)
    → Gives order (i + 1) a b b'
    → b.lists i ≡ []
    → Gives order i a b b'
Gives-widen order i a b b' g empty = record {
  at = g.at;
  others = g.others;
  not_below = omega (arith, g.not_below);
  in_range = g.in_range;
  smaller_empty = λ o p q. elim (Bool-cases (i == o)) [
    | inl same ↦ let t : i ≡ o = (==_iff i o).0 same in rw (← t) empty
    | inr other ↦ g.smaller_empty o (ground (arith, other, p)) q
  ];
  first_free = g.first_free;
  lists_at = g.lists_at;
  marks = g.marks;
}

-- A free block that is cut.
Sliced-Gives :
    {order i a : ℕ} {b b' : Buddy} (l : List ℕ)
    → b.lists i ≡ a ∷ l
    → i ≤ 10
    → Sliced order i a (popped b i l) b'
    → Gives order i a b b'
unfolding Marks
Sliced-Gives {order} {i} {a} {b} {b'} l found small s = record {
  at = i;
  others = l;
  not_below = omega arith;
  in_range = small;
  smaller_empty = λ o p q. absurd (omega (arith, p, q));
  first_free = found;
  lists_at = λ o. s.lists_at o ∙ ground arith;
  marks = s.marks;
}

widen :
    (order i : ℕ) (b : Buddy) (r : Buddy × Outcome)
    → Result order (i + 1) b r
    → b.lists i ≡ []
    → Result order i b r
widen order i b (b', o) (inl (a, e, v, f, g)) empty =
    inl (a, e, v, f, Gives-widen order i a b b' g empty)
widen order i b r (inr (f, s, all)) empty = inr (
  f,
  s,
  λ o p q. elim (Bool-cases (i == o)) [
    | inl same ↦ let t : i ≡ o = (==_iff i o).0 same in rw (← t) empty
    | inr other ↦ all o (ground arith) q
  ],
)

upper_loop_lem :
    (rounds i : ℕ) (b : Buddy) (order : ℕ)
    → i + rounds ≡ 11
    → order < i
    → IsValid b
    → 10 ≤ b.nodes
    → Result order i b (upper_loop rounds i b order)
unfolding upper_loop
upper_loop_lem zero i b order e lt v n = inr (refl, refl, λ o p q. absurd (omega arith))
upper_loop_lem (suc k) i b order e lt v n = elim (List-cases (b.lists i)) [
  | inl empty ↦
      let none_free : (b.num_free i == 0) ≡ true = ground (arith, v.counted i, ap length empty) in
      rw none_free (
        widen order i b (upper_loop k (i + 1) b order)
          (upper_loop_lem k (i + 1) b order (omega arith) (omega arith) v n) empty)
  | inr (a, l, found) ↦
      let p = popped b i l in
      let (ok, sliced) = buddy_slice_lem i p a order lt (omega arith) in
      let total = free_frames-Sliced 11 sliced lt in
      let taken = free_frames-update b.lists i a l 11 found in
      rw (upper_loop-hit k i b order a l v found ok) (
        inl (
          a,
          refl,
          Sliced-IsValid sliced (popped-IsValid b i a l v found),
          ground (arith, total, taken),
          Sliced-Gives l found (omega arith) sliced,
        ))
]

-- A free block of the order itself.
whole-Gives :
    (order a : ℕ) (b : Buddy) (l : List ℕ)
    → b.lists order ≡ a ∷ l
    → order ≤ 10
    → Gives order order a b (set_frame_used (popped b order l) order a)
unfolding set_frame_used Marks
whole-Gives order a b l found small = record {
  at = order;
  others = l;
  not_below = omega arith;
  in_range = small;
  smaller_empty = λ o p q. absurd (omega (arith, p, q));
  first_free = found;
  lists_at = λ o. ground arith;
  marks = set_frame_used-Marks (popped b order l) order a;
}

-- One call for up to 1024 frames, in a valid allocator whose slab cache can give ten nodes, does not
-- fault. It returns the first free block of the smallest order that is large enough and has one. That
-- block leaves its list, the upper half of each cut is listed at its order, no other list changes, the
-- counts stay right, and the free frames become fewer by exactly the frames of the request's order. Of
-- the maps exactly the bits of the block, from the request's order to its own, are set. Or it returns
-- ENOMEM and changes nothing, and the lists of the request's order and of every order above are empty.
pub buddy_alloc_frames_max_order_lem :
    (b : Buddy) (nframes : ℕ)
    → IsValid b
    → 10 ≤ b.nodes
    → let order = get_buddy_order nframes in
      (r : Buddy × Outcome) × (buddy_alloc_frames_max_order b nframes ≡ some r)
      × Result order order b r
unfolding buddy_alloc_frames_max_order
buddy_alloc_frames_max_order_lem b nframes v n =
    let order = get_buddy_order nframes in
    let small = get_buddy_order-le nframes in
    elim (List-cases (b.lists order)) [
      | inl empty ↦
          let none_free : (b.num_free order == 0) ≡ true =
            ground (arith, v.counted order, ap length empty) in
          let r = upper_loop (10 - order) (order + 1) b order in
          (
            r,
            rw none_free,
            widen order order b r
                (upper_loop_lem (10 - order) (order + 1) b order (omega arith) (omega arith) v n)
                empty,
          )
      | inr (a, l, found) ↦
          let some_free : (b.num_free order == 0) ≡ false =
            ground (arith, v.counted order, ap length found) in
          let p = popped b order l in
          let b' = set_frame_used p order a in
          let keep = popped-IsValid b order a l v found in
          let taken = free_frames-update b.lists order a l 11 found in
          let in_range : ltb order 11 ≡ true = ground arith in
          (
            (b', allocated a),
            rw (some_free, found, remove_free_head-popped b order a l v found),
            inl (
              a,
              refl,
              record { counted = λ o. keep.counted o },
              rw in_range at taken,
              whole-Gives order a b l found small,
            ),
          )
    ]
