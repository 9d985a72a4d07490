-- ===== src/Clone/Entries.antt =====
-- The entries of the copy of a page directory.
use xanadu_os.Base.{
  ℕ, zero, suc, ◌+◌, ◌%◌, ◌<◌, ◌≡◌, ◌≢◌, ◌⊎◌, inl, inr, refl, ap, sym, ◌∙◌, Bool, true, false, ◌&&◌,
  ◌||◌, arith, Option, none, some, ◌==◌, if◌then◌else◌, Bool-cases,
}
use mathlib.Core.Path.{subst}
use xanadu_os.Base.Errors.{enomem}
use xanadu_os.Base.Words.{test_bit-bit}
use xanadu_os.Base.Bits.{bit}
use xanadu_os.Base.Memory.{write, write_same, write_other}
use xanadu_os.Paging.{PageDir, NewTable, tab_present}
use xanadu_os.Clone.{
  Copying, Cloning, is_user, then_on, clone_page_table, with_table, set_entry, clone_entry,
  not_accessed, dir_loop, clone_page_dir,
}

-- No entry below `n` of a directory is for the user and present.
pub Hidden : (n : ℕ) → PageDir → Type 0
Hidden n pd =
    (i : ℕ) → i < n → (is_user (pd.page_tables i) && tab_present (pd.page_tables i)) ≡ false

-- An entry that is set, hidden, hides one more.
set_entry-Hidden :
    (n entry table : ℕ) (pd : PageDir)
    → (is_user entry && tab_present entry) ≡ false
    → Hidden n pd
    → Hidden (n + 1) (set_entry n entry table pd)
unfolding Hidden
set_entry-Hidden n entry table pd hidden h i l =
    let split : (n ≡ i) ⊎ (n ≢ i) = omega arith in
    elim split [
      | inl e ↦
          let here : write pd.page_tables n entry i ≡ entry =
            ap (write pd.page_tables n entry) (sym e) ∙ write_same pd.page_tables n entry in
          ap (λ v. is_user v && tab_present v) here ∙ hidden
      | inr a ↦
          ap (λ v. is_user v && tab_present v) (write_other pd.page_tables n entry i a)
          ∙ h i (omega (arith, l, a))
    ]

-- What a copy has when it succeeds; a fault is left out.
data OnSuccess {ℓ} {A : Type ℓ} (P : A → Type 0) : Option (A × ℕ) → Type ℓ where
  faults : OnSuccess P none
  results : {a : A} {ret : ℕ} → (ret ≡ 0 → P a) → OnSuccess P (some (a, ret))

module _ {P : Cloning → Type 0} where
  OnSuccess-then_on :
      {Q : Cloning → Type 0} {next : Cloning → Option (Cloning × ℕ)} {r : Option (Cloning × ℕ)}
      → OnSuccess P r
      → ((c : Cloning) → P c → OnSuccess Q (next c))
      → OnSuccess Q (then_on next r)
  OnSuccess-then_on faults k = faults
  OnSuccess-then_on (results {a = c} {ret = ret} p) k = elim (Bool-cases (ret == 0)) [
    | inl y ↦ rw y (k c (p (ground (arith, y))))
    | inr n ↦ rw n (results (λ e. absurd (ground (arith, e, n))))
  ]

  OnSuccess-if :
      (x y : Option (Cloning × ℕ)) (b : Bool)
      → (b ≡ true → OnSuccess P x)
      → (b ≡ false → OnSuccess P y)
      → OnSuccess P (if b then x else y)
  OnSuccess-if x y true p q = p refl
  OnSuccess-if x y false p q = q refl

  OnSuccess_inv : {c : Cloning} → OnSuccess P (some (c, 0)) → P c
  OnSuccess_inv (results p) = p refl

with_table-Hidden :
    (new_pt : NewTable) (pde : ℕ) (pd : PageDir) (r : Option (Copying × ℕ))
    → (is_user new_pt.phys && tab_present new_pt.phys) ≡ false
    → Hidden pde pd
    → OnSuccess (λ c. Hidden (pde + 1) c.new_pd) (with_table new_pt pde pd r)
with_table-Hidden new_pt pde pd none a h = faults
with_table-Hidden new_pt pde pd (some (s, ret)) a h = elim (Bool-cases (ret == 0)) [
  | inl y ↦ rw y (results (λ e. set_entry-Hidden pde new_pt.phys new_pt.table pd a h))
  | inr n ↦ rw n (results (λ e. absurd (ground (arith, e, n))))
]

clone_entry-Hidden :
    (fresh : ℕ → ℕ → ℕ → NewTable) (new_pts : ℕ → NewTable) (pde : ℕ) (c : Cloning)
    → (is_user (new_pts pde).phys && tab_present (new_pts pde).phys) ≡ false
    → Hidden pde c.new_pd
    → OnSuccess (λ c'. Hidden (pde + 1) c'.new_pd) (clone_entry fresh new_pts pde c)
unfolding clone_entry
clone_entry-Hidden fresh new_pts pde c a h =
    let entry = c.state.vm.pd.page_tables pde in
    OnSuccess-if _ _ (is_user entry && tab_present entry)
      (λ y.
        with_table-Hidden (new_pts pde) pde c.new_pd
          (clone_page_table (fresh pde) (new_pts pde) pde c.state) a h)
      (λ n.
        results (λ e. set_entry-Hidden pde entry (c.state.vm.pd.page_tables_virt pde) c.new_pd n h))

dir_loop-Hidden :
    (fresh : ℕ → ℕ → ℕ → NewTable) (new_pts : ℕ → NewTable) (n pde : ℕ) (c : Cloning)
    → ((i : ℕ) → (is_user (new_pts i).phys && tab_present (new_pts i).phys) ≡ false)
    → Hidden pde c.new_pd
    → OnSuccess (λ c'. Hidden (pde + n) c'.new_pd) (dir_loop fresh new_pts n pde c)
unfolding dir_loop
dir_loop-Hidden fresh new_pts zero pde c a h =
    let same : pde ≡ pde + 0 = omega arith in results (λ e. subst (λ k. Hidden k c.new_pd) same h)
dir_loop-Hidden fresh new_pts (suc n) pde c a h =
    let same : pde + 1 + n ≡ pde + suc n = omega arith in
    OnSuccess-then_on (clone_entry-Hidden fresh new_pts pde (not_accessed pde c) (a pde) h)
      (λ c' h'.
        subst (λ k. OnSuccess (λ e. Hidden k e.new_pd) (dir_loop fresh new_pts n (pde + 1) c')) same
          (dir_loop-Hidden fresh new_pts n (pde + 1) c' a h'))

neither : (a b : ℕ) → a ≢ 0 → b ≢ 0 → (a == 0 || b == 0) ≡ false
neither a b h k = ground (arith, h, k)

none-Hidden : (pd : PageDir) → Hidden 0 pd
unfolding Hidden
none-Hidden pd i l = absurd (omega (arith, l))

first_digit : (phys : ℕ) → phys % 4096 ≡ 0 → (bit phys 0 == 1) ≡ false
unfolding bit
first_digit phys h = ground (arith, h)

aligned_phys : (phys : ℕ) → phys % 4096 ≡ 0 → (is_user phys && tab_present phys) ≡ false
aligned_phys phys h =
    let even : (bit phys 0 == 1) ≡ false = first_digit phys h in
    let absent : tab_present phys ≡ false = test_bit-bit phys 0 ∙ even in ground (arith, absent)

-- A copy of a directory that succeeds, with new tables aligned to pages: none of the 1024 entries of
-- the new directory is both present and for the user, since those of the user's tables are stored
-- without flags.
pub clone_page_dir_lem :
    (fresh : ℕ → ℕ → ℕ → NewTable) (new_pts : ℕ → NewTable) (tables : NewTable) (tables_virt : ℕ)
    (c c' : Cloning)
    → ((i : ℕ) → (new_pts i).phys % 4096 ≡ 0)
    → tables.table ≢ 0
    → tables_virt ≢ 0
    → clone_page_dir fresh new_pts tables tables_virt c ≡ some (c', 0)
    → Hidden 1024 c'.new_pd
unfolding clone_page_dir
clone_page_dir_lem fresh new_pts tables tables_virt c c' a t v r =
    let given : (tables.table == 0 || tables_virt == 0) ≡ false =
      neither tables.table tables_virt t v in
    let start : Cloning = record c { new_pd = record (c.new_pd) { pd_phys_addr = tables.phys } } in
    let loop : dir_loop fresh new_pts 1024 0 start ≡ some (c', 0) =
      ap (λ b. if b then some (c, enomem) else dir_loop fresh new_pts 1024 0 start) (sym given)
      ∙ r in
    OnSuccess_inv {P = λ e. Hidden 1024 e.new_pd} (
      subst (λ o. OnSuccess (λ e. Hidden 1024 e.new_pd) o) loop
        (dir_loop-Hidden fresh new_pts 1024 0 start (λ i. aligned_phys (new_pts i).phys (a i))
          (none-Hidden start.new_pd)))
