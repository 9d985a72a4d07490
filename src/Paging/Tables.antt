-- ===== src/Paging/Tables.antt =====
-- `map_alloc_pt` for an entry of the directory.
use Prim.Native.Nat.{bit_or}
use xanadu_os.Base.{
  ℕ, ◌+◌, ◌%◌, ◌^◌, ◌≤◌, ◌<◌, ◌≡◌, ◌≢◌, inl, inr, ◌∙◌, refl, ap, arith, true, false, Bool-cases,
  ltb, ◌==◌,
}
use xanadu_os.Base.Words.{u16, test_bit, clear_bit, test_bit-clear_bit}
use xanadu_os.Base.Memory.{Words, write, write_same}
use xanadu_os.Paging.{
  PageDir, NewTable, Mapped, clear_accessed, alloc_pt, zero_table, map_alloc_pt, map_alloc_npt,
  npt_loop, pt_present,
}
use xanadu_os.Paging.Address.{entry-sum}

-- What a successful call leaves: `table` is the table of entry `pde`, and the tables of the other
-- entries are the same.
pub record Ready (pd : PageDir) (pde table : ℕ) (m : Mapped) : Type 0 where
  pub succeeded : m.ret ≡ 0
  pub given : m.pt 0 ≡ table
  pub listed : m.pd.page_tables_virt pde ≡ table
  pub others : (k : ℕ) → k ≢ pde → m.pd.page_tables_virt k ≡ pd.page_tables_virt k

clear_accessed-virt :
    (pd : PageDir) (pde : ℕ) → (clear_accessed pd pde).page_tables_virt ≡ pd.page_tables_virt
unfolding clear_accessed
clear_accessed-virt pd pde = elim (Bool-cases (test_bit (pd.page_tables pde) 5)) [
  | inl e ↦ rw e refl
  | inr e ↦ rw e refl
]

clear_accessed-present :
    (pd : PageDir) (pde : ℕ)
    → test_bit ((clear_accessed pd pde).page_tables pde) 0 ≡ test_bit (pd.page_tables pde) 0
unfolding clear_accessed
clear_accessed-present pd pde = elim (Bool-cases (test_bit (pd.page_tables pde) 5)) [
  | inl e ↦ rw e (
      ap (λ t. test_bit t 0) (write_same pd.page_tables pde (clear_bit (pd.page_tables pde) 5))
      ∙ test_bit-clear_bit (pd.page_tables pde) 5 0 (omega arith) (omega arith))
  | inr e ↦ rw e refl
]

-- An entry that is present keeps its table, and no memory changes.
pub map_alloc_pt_present :
    (fresh : ℕ → NewTable) (pd : PageDir) (mem pt : Words) (pde flags : ℕ)
    → pde ≤ 1024
    → pt_present pd pde ≡ true
    → let m = map_alloc_pt fresh pd mem pt pde flags in
      Ready pd pde (pd.page_tables_virt pde) m × (m.mem ≡ mem)
unfolding map_alloc_pt map_alloc_npt npt_loop write
map_alloc_pt_present fresh pd mem pt pde flags h e =
    let here : pde + 0 ≡ pde = omega arith in
    let low : ltb 1024 pde ≡ false = ground arith in
    let p = clear_accessed-present pd pde ∙ e in
    let v = clear_accessed-virt pd pde in
    rw (here, low, p)
      (
        record {
          succeeded = refl;
          given = ap (λ (t : Words). t pde) v;
          listed = ap (λ (t : Words). t pde) v;
          others = λ k d. ap (λ (t : Words). t k) v;
        },
        refl,
      )

-- An entry that is not present gets the table from the heap, cleared.
pub map_alloc_pt_absent :
    (fresh : ℕ → NewTable) (pd : PageDir) (mem pt : Words) (pde flags : ℕ)
    → pde ≤ 1024
    → pt_present pd pde ≡ false
    → (fresh 0).phys < 2 ^ 32
    → (fresh 0).phys % 4096 ≡ 0
    → 0 < flags
    → flags < 4096
    → let m = map_alloc_pt fresh pd mem pt pde flags in
      Ready pd pde (fresh 0).table m × (m.mem ≡ zero_table mem (fresh 0).table)
unfolding map_alloc_pt map_alloc_npt npt_loop alloc_pt write
map_alloc_pt_absent fresh pd mem pt pde flags h e lt al pos small =
    let here : pde + 0 ≡ pde = omega arith in
    let low : ltb 1024 pde ≡ false = ground arith in
    let p = clear_accessed-present pd pde ∙ e in
    let v = clear_accessed-virt pd pde in
    let f : u16 flags ≡ flags = omega arith in
    let nonzero : (bit_or (fresh 0).phys flags == 0) ≡ false =
      rw (entry-sum (fresh 0).phys flags lt al small) (ground arith) in
    rw (here, low, p, f, nonzero)
      (
        record {
          succeeded = refl;
          given = ground arith;
          listed = ground arith;
          others = λ k d. ground (arith, ap (λ (t : Words). t k) v);
        },
        refl,
      )
