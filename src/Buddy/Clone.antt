-- ===== src/Buddy/Clone.antt =====
-- mem/buddy_frame_alloc.c, the copy of an allocator for a new task; `nodes` is what the new slab cache
-- can give.
use xanadu_os.Base.{
  ℕ, zero, suc, ◌+◌, ◌-◌, ◌≤◌, ◌<◌, ◌≡◌, ◌⊎◌, inl, inr, refl, ap, sym, ◌∙◌, arith, Option, none,
  some, List, [], ◌∷◌, length, ltb, true, if◌then◌else◌,
}
use xanadu_os.Base.Memory.{update, update_same, update_other}
use xanadu_os.Buddy.{Buddy, linked, max_order, get_buddy_map_size, map_offset}

abbrev pub behind_node : (addr : ℕ) → Option (ℕ × List ℕ) → Option (ℕ × List ℕ)
behind_node addr none = none
behind_node addr (some (left, l)) = some (left, addr ∷ l)

-- The nodes of a list copied, with the number of nodes left; `none` is a write through NULL when they run out.
pub copy_list : (nodes : ℕ) → List ℕ → Option (ℕ × List ℕ)
copy_list nodes [] = some (nodes, [])
copy_list zero (a ∷ l) = none
copy_list (suc n) (a ∷ l) = behind_node a (copy_list n l)

-- The lists of the orders from `i` on.
abbrev pub list_copied :
    (i : ℕ)
    → (stale lists : ℕ → List ℕ) → ((nodes : ℕ) → (ℕ → List ℕ) → Option (ℕ × (ℕ → List ℕ)))
    → Option (ℕ × List ℕ)
    → Option (ℕ × (ℕ → List ℕ))
list_copied i stale lists next none = none
list_copied i stale lists next (some (left, l)) = next left (update lists i (linked (stale i) l))

pub copy_lists : (rounds i nodes : ℕ) → (stale copy lists : ℕ → List ℕ) → Option (ℕ × (ℕ → List ℕ))
unfolding copy_list linked
copy_lists zero i nodes stale copy lists = some (nodes, lists)
copy_lists (suc n) i nodes stale copy lists =
    list_copied i stale lists (λ left lists'. copy_lists n (i + 1) left stale copy lists')
      (copy_list nodes (copy i))

-- Whatever lies behind the words that are copied is 0 here.
abbrev pub cloned : (copy : Buddy) → Option (ℕ × (ℕ → List ℕ)) → Option Buddy
cloned copy none = none
cloned copy (some (left, lists)) =
    let size = get_buddy_map_size copy.mem_size in
    some (record {
      mem_size = copy.mem_size;
      mem_start = copy.mem_start;
      nodes = left;
      lists = lists;
      num_free = λ order. if ltb order max_order then copy.num_free order else 0;
      map_base = λ order. map_offset order copy.mem_size;
      map_data = λ i. if ltb i size then copy.map_data (copy.map_base 0 + i) else 0;
    })

-- `stale` is what the unwritten `next` of the last node of each order leads to.
pub buddy_alloc_clone : (nodes : ℕ) → (stale : ℕ → List ℕ) → (copy : Buddy) → Option Buddy
unfolding copy_lists
buddy_alloc_clone nodes stale copy =
    cloned copy (copy_lists max_order 0 nodes stale copy.lists (λ _. []))

-- The nodes of the lists of `n` orders from `i` on.
unfoldable pub all_nodes : (n i : ℕ) → (ℕ → List ℕ) → ℕ
all_nodes zero i lists = 0
all_nodes (suc n) i lists = length (lists i) + all_nodes n (i + 1) lists

copy_list-enough :
    (nodes : ℕ) (l : List ℕ) → length l ≤ nodes → copy_list nodes l ≡ some (nodes - length l, l)
unfolding copy_list
copy_list-enough nodes [] h =
    let all : nodes ≡ nodes - 0 = omega arith in ap (λ k. some (k, [])) all
copy_list-enough zero (a ∷ l) h = absurd (omega (arith, h))
copy_list-enough (suc n) (a ∷ l) h =
    let left : n - length l ≡ suc n - suc (length l) = omega arith in
    ap (behind_node a) (copy_list-enough n l (omega (arith, h))) ∙ ap (λ k. some (k, a ∷ l)) left

-- What a copy of the lists of `n` orders from `i` on leaves.
CopiedLists : (n i nodes : ℕ) → (stale copy lists : ℕ → List ℕ) → Option (ℕ × (ℕ → List ℕ)) → Type 0
CopiedLists n i nodes stale copy lists r =
    (out : ℕ → List ℕ) × (r ≡ some (nodes - all_nodes n i copy, out))
    × ((j : ℕ) → i ≤ j → j < i + n → out j ≡ linked (stale j) (copy j))
    × ((j : ℕ) → j < i → out j ≡ lists j)

copy_lists-enough :
    (n i nodes : ℕ) (stale copy lists : ℕ → List ℕ)
    → all_nodes n i copy ≤ nodes
    → CopiedLists n i nodes stale copy lists (copy_lists n i nodes stale copy lists)
unfolding copy_lists all_nodes CopiedLists
copy_lists-enough zero i nodes stale copy lists h =
    let all : nodes ≡ nodes - 0 = omega arith in
    (lists, ap (λ k. some (k, lists)) all, λ j a b. absurd (omega (arith, a, b)), λ j a. refl)
copy_lists-enough (suc n) i nodes stale copy lists h =
    let left = nodes - length (copy i) in
    let lists' = update lists i (linked (stale i) (copy i)) in
    let (out, result, same, kept) =
      copy_lists-enough n (i + 1) left stale copy lists' (omega (arith, h)) in
    let count : left - all_nodes n (i + 1) copy
        ≡ nodes - (length (copy i) + all_nodes n (i + 1) copy) =
      omega arith in
    let here : out i ≡ linked (stale i) (copy i) =
      kept i (omega arith) ∙ update_same lists i (linked (stale i) (copy i)) in
    (
      out,
      ap (list_copied i stale lists (λ k l. copy_lists n (i + 1) k stale copy l))
            (copy_list-enough nodes (copy i) (omega (arith, h)))
          ∙ result
          ∙ ap (λ k. some (k, out)) count,
      λ j a b.
          let split : (i ≡ j) ⊎ (i + 1 ≤ j) = omega (arith, a) in
          elim split [
            | inl e ↦ ap out (sym e) ∙ here ∙ ap (λ k. linked (stale k) (copy k)) e
            | inr l ↦ same j l (omega (arith, b))
          ],
      λ j a.
          kept j (omega (arith, a))
          ∙ update_other lists i (linked (stale i) (copy i)) j (omega (arith, a)),
    )

-- `buddy_alloc_clone`, when its slab cache can give as many nodes as the free lists have and the maps of
-- the original begin where those of a new allocator do: it returns an allocator of the same memory with
-- the same counts and the same words of the maps. An empty free list stays empty; the nodes of any
-- other are copied in order, and the list goes on with what the unwritten link of the last node leads to.
pub buddy_alloc_clone_lem :
    (nodes : ℕ) (stale : ℕ → List ℕ) (copy : Buddy)
    → all_nodes max_order 0 copy.lists ≤ nodes
    → copy.map_base 0 ≡ 0
    → (b : Buddy) × (buddy_alloc_clone nodes stale copy ≡ some b)
      × (b.mem_size ≡ copy.mem_size)
      × (b.mem_start ≡ copy.mem_start)
      × ((order : ℕ)
          → order < 11
          → (b.lists order ≡ linked (stale order) (copy.lists order))
            × (b.num_free order ≡ copy.num_free order))
      × ((i : ℕ) → i < get_buddy_map_size copy.mem_size → b.map_data i ≡ copy.map_data i)
unfolding buddy_alloc_clone CopiedLists
buddy_alloc_clone_lem nodes stale copy h base =
    let (out, result, same, kept) =
      copy_lists-enough max_order 0 nodes stale copy.lists (λ _. []) h in
    (
      _,
      ap (cloned copy) result,
      refl,
      refl,
      λ order l.
          let inside : ltb order max_order ≡ true = ground (arith, l) in
          (
            same order (omega arith) (omega (arith, l)),
            ap (λ b. if b then copy.num_free order else 0) inside,
          ),
      λ i l.
          let inside : ltb i (get_buddy_map_size copy.mem_size) ≡ true = ground (arith, l) in
          let at : copy.map_base 0 + i ≡ i = omega (arith, base) in
          ap (λ b. if b then copy.map_data (copy.map_base 0 + i) else 0) inside
          ∙ ap copy.map_data at,
    )
