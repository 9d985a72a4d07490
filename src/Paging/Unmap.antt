-- ===== src/Paging/Unmap.antt =====
-- `unmap_pages` against a loop without the carry.
use xanadu_os.Base.{
  ℕ, zero, suc, ◌+◌, ◌-◌, ◌*◌, ◌/◌, ◌%◌, ◌^◌, ◌≤◌, ◌<◌, ◌≡◌, ◌≢◌, inl, inr, ◌∙◌, refl, ap, arith,
  false, Bool-cases, ==_iff, leb, ◌==◌, if◌then◌else◌,
}
use xanadu_os.Base.Words.{u16, u32, sub32, test_bit, clear_bit, test_bit-clear_bit}
use xanadu_os.Base.Memory.{Words, write, write_other}
use xanadu_os.Paging.{PageDir, unmap_page, unmap_loop, unmap_pages}

-- The entry of the `i`-th page of a range, over as many tables as it takes.
abbrev pub slot : PageDir → (pde pte i : ℕ) → ℕ
slot pd pde pte i = pd.page_tables_virt (pde + (pte + i) / 1024) + (pte + i) % 1024

pub clear_slots : PageDir → (pde pte rounds i : ℕ) → Words → Words
clear_slots pd pde pte zero i mem = mem
clear_slots pd pde pte (suc n) i mem =
    clear_slots pd pde pte n (i + 1)
      (write mem (slot pd pde pte i) (clear_bit (mem (slot pd pde pte i)) 0))

-- The loop at round `i`, `c` tables behind the first.
record At (pde pte i pde' overflow : ℕ) : Type 0 where
  carry : ℕ
  table : pde' ≡ pde + carry
  word : overflow ≡ u32 (2 ^ 32 - 1024 * carry)
  lower : 1024 * carry ≤ pte + i
  upper : pte + i ≤ 1024 * carry + 1024

unmap_step :
    (n i : ℕ) (pd : PageDir) (mem : Words) (pde pte overflow : ℕ)
    → let past = leb 1024 (u32 (pte + overflow + i)) in
      let overflow' = if past then sub32 overflow 1024 else overflow in
      let pde' = if past then u16 (pde + 1) else pde in
      leb 1024 pde' ≡ false
      → unmap_loop (suc n) i pd mem pde pte overflow
        ≡ unmap_loop n
            (i + 1)
            pd
            (unmap_page pd mem pde' (u16 (overflow' + pte + i)))
            pde'
            pte
            overflow'
unfolding unmap_loop
unmap_step n i pd mem pde pte overflow e = rw e refl

unmap_loop-clear_slots :
    (rounds i : ℕ) (pd : PageDir) (mem : Words) (pde pte pde' overflow : ℕ)
    → pte < 1024
    → 1024 * pde + pte + i + rounds ≤ 2 ^ 20
    → At pde pte i pde' overflow
    → unmap_loop rounds i pd mem pde' pte overflow ≡ clear_slots pd pde pte rounds i mem
unfolding unmap_loop clear_slots unmap_page
unmap_loop-clear_slots zero i pd mem pde pte pde' overflow h room at = refl
unmap_loop-clear_slots (suc n) i pd mem pde pte pde' overflow h room at =
    let past = leb 1024 (u32 (pte + overflow + i)) in
    let overflow' = if past then sub32 overflow 1024 else overflow in
    let pde'' = if past then u16 (pde' + 1) else pde' in
    let c = (pte + i) / 1024 in
    let table : pde'' ≡ pde + c = ground (arith, at.table, at.word, at.lower, at.upper) in
    let word : overflow' ≡ u32 (2 ^ 32 - 1024 * c) =
      ground (arith, at.table, at.word, at.lower, at.upper) in
    let within : leb 1024 pde'' ≡ false = ground (arith, table) in
    let column : u16 (overflow' + pte + i) ≡ (pte + i) % 1024 = ground (arith, word) in
    unmap_step n i pd mem pde' pte overflow within
    ∙ ap (λ m. unmap_loop n (i + 1) pd m pde'' pte overflow')
        (ap (λ t. unmap_page pd mem t (u16 (overflow' + pte + i))) table
          ∙ ap (λ t. unmap_page pd mem (pde + c) t) column)
    ∙ unmap_loop-clear_slots n (i + 1) pd (unmap_page pd mem (pde + c) ((pte + i) % 1024)) pde pte
        pde'' overflow' h (omega arith)
        (record { carry = c; table = table; word = word; lower = omega arith; upper = omega arith })

test_bit-cleared :
    (mem : Words) (a k j : ℕ)
    → j < 32
    → test_bit (write mem a (clear_bit (mem a) 0) k) j
      ≡ (if a == k then (if j == 0 then false else test_bit (mem k) j) else test_bit (mem k) j)
unfolding write
test_bit-cleared mem a k j h = elim (Bool-cases (a == k)) [
  | inl same ↦
      let s : a ≡ k = (==_iff a k).0 same in
      rw (same, s) (test_bit-clear_bit (mem k) 0 j (omega arith) h ∙ ground arith)
  | inr other ↦ rw other refl
]

clear_slots-bits :
    (rounds i : ℕ) (pd : PageDir) (mem : Words) (pde pte k j : ℕ)
    → j < 32
    → 0 < j
    → test_bit (clear_slots pd pde pte rounds i mem k) j ≡ test_bit (mem k) j
unfolding clear_slots
clear_slots-bits zero i pd mem pde pte k j h pos = refl
clear_slots-bits (suc n) i pd mem pde pte k j h pos =
    clear_slots-bits n (i + 1) pd _ pde pte k j h pos
    ∙ test_bit-cleared mem (slot pd pde pte i) k j h
    ∙ ground arith

clear_slots-stay :
    (rounds i : ℕ) (pd : PageDir) (mem : Words) (pde pte k : ℕ)
    → test_bit (mem k) 0 ≡ false
    → test_bit (clear_slots pd pde pte rounds i mem k) 0 ≡ false
unfolding clear_slots
clear_slots-stay zero i pd mem pde pte k e = e
clear_slots-stay (suc n) i pd mem pde pte k e =
    clear_slots-stay n (i + 1) pd _ pde pte k
      (test_bit-cleared mem (slot pd pde pte i) k 0 (omega arith) ∙ ground arith)

clear_slots-present :
    (rounds i : ℕ) (pd : PageDir) (mem : Words) (pde pte l : ℕ)
    → i ≤ l
    → l < i + rounds
    → test_bit (clear_slots pd pde pte rounds i mem (slot pd pde pte l)) 0 ≡ false
unfolding clear_slots
clear_slots-present zero i pd mem pde pte l a b = absurd (omega arith)
clear_slots-present (suc n) i pd mem pde pte l a b = elim (Bool-cases (i == l)) [
  | inl same ↦
      let s : i ≡ l = (==_iff i l).0 same in
      clear_slots-stay n (i + 1) pd _ pde pte (slot pd pde pte l) (
        rw s (
          test_bit-cleared mem (slot pd pde pte l) (slot pd pde pte l) 0 (omega arith)
          ∙ ground arith))
  | inr later ↦ clear_slots-present n (i + 1) pd _ pde pte l (ground arith) (omega arith)
]

clear_slots-others :
    (rounds i : ℕ) (pd : PageDir) (mem : Words) (pde pte k : ℕ)
    → ((l : ℕ) → i ≤ l → l < i + rounds → slot pd pde pte l ≢ k)
    → clear_slots pd pde pte rounds i mem k ≡ mem k
unfolding clear_slots
clear_slots-others zero i pd mem pde pte k h = refl
clear_slots-others (suc n) i pd mem pde pte k h =
    clear_slots-others n (i + 1) pd _ pde pte k (λ l a b. h l (omega arith) (omega arith))
    ∙ write_other mem (slot pd pde pte i) (clear_bit (mem (slot pd pde pte i)) 0) k
        (h i (omega arith) (omega arith))

-- `unmap_pages` of a range within the directory, over any number of tables: the entry of each of
-- the pages is not present afterwards, the other bits of every entry are kept, and a word that is
-- no entry of the range is not changed.
pub unmap_pages_lem :
    (pd : PageDir) (mem : Words) (pde pte npages : ℕ)
    → pte < 1024
    → 1024 * pde + pte + npages ≤ 2 ^ 20
    → let mem' = unmap_pages pd mem pde pte npages in
      ((l : ℕ) → l < npages → test_bit (mem' (slot pd pde pte l)) 0 ≡ false)
      × ((k j : ℕ) → 0 < j → j < 32 → test_bit (mem' k) j ≡ test_bit (mem k) j)
      × ((k : ℕ) → ((l : ℕ) → l < npages → slot pd pde pte l ≢ k) → mem' k ≡ mem k)
unfolding unmap_pages
unmap_pages_lem pd mem pde pte npages h room =
    let e = unmap_loop-clear_slots npages 0 pd mem pde pte pde 0 h (omega arith) (record {
      carry = 0;
      table = omega arith;
      word = omega arith;
      lower = omega arith;
      upper = omega arith;
    }) in
    rw e (
      λ l b. clear_slots-present npages 0 pd mem pde pte l (omega arith) (omega arith),
      λ k j pos lt. clear_slots-bits npages 0 pd mem pde pte k j lt pos,
      λ k out. clear_slots-others npages 0 pd mem pde pte k (λ l a b. out l (omega arith)),
    )
