-- ===== src/Mmap/Translate.antt =====
-- A page that `kmmap` has mapped is translated to the frame that was asked for.
use Prim.Native.Nat.{bit_or}
use xanadu_os.Base.{
  ℕ, ◌+◌, ◌-◌, ◌*◌, ◌/◌, ◌%◌, ◌^◌, ◌≤◌, ◌<◌, ◌≡◌, ◌≢◌, inl, inr, ◌∙◌, refl, sym, ap, arith, true,
  false, Bool-cases, some, ◌==◌, if◌then◌else◌,
}
use xanadu_os.Base.Words.{u16, u32}
use xanadu_os.Base.Memory.{Words}
use xanadu_os.Frames.{alloc_nframes}
use xanadu_os.Frames.Walk.{used}
use xanadu_os.Frames.Marks.{alloc_nframes_lem}
use xanadu_os.Buddy.{Buddy, buddy_alloc_frames}
use xanadu_os.Paging.{
  PageDir, NewTable, map_alloc_pt, pt_present, get_pde_pte, to_phys_addr, window, put_window,
}
use xanadu_os.Paging.Address.{get_pde_pte_lem, to_phys_addr_entry}
use xanadu_os.Paging.Tables.{Ready, map_alloc_pt_present, map_alloc_pt_absent}
use xanadu_os.Mmap.{
  Vm, Mapping, table_for, buddy_gave, knmmap_table, at_phys, map_frames, with_table, knmmap, kmmap,
}

-- What the page directory and the heap have to give for an entry.
abbrev pub CanMap : (ℕ → NewTable) → PageDir → (pde : ℕ) → Type 0
CanMap fresh pd pde =
    (pt_present pd pde ≡ true → pd.page_tables_virt pde ≢ 0)
    × ((fresh 0).table ≢ 0)
    × ((fresh 0).phys < 2 ^ 32)
    × ((fresh 0).phys % 4096 ≡ 0)

map_alloc_pt-Ready :
    (fresh : ℕ → NewTable) (pd : PageDir) (mem pt : Words) (pde flags : ℕ)
    → pde ≤ 1024
    → 0 < flags
    → flags < 4096
    → CanMap fresh pd pde
    → (table : ℕ) × (table ≢ 0) × Ready pd pde table (map_alloc_pt fresh pd mem pt pde flags)
map_alloc_pt-Ready fresh pd mem pt pde flags h pos small (old, new, lt, al) =
    elim (Bool-cases (pt_present pd pde)) [
      | inl here ↦ (
        pd.page_tables_virt pde,
        old here,
        (map_alloc_pt_present fresh pd mem pt pde flags h here).0,
      )
      | inr absent ↦ (
        (fresh 0).table,
        new,
        (map_alloc_pt_absent fresh pd mem pt pde flags h absent lt al pos small).0,
      )
    ]

put_window_head : (mem : Words) (at : ℕ) (out : Words) → put_window mem at 1 out at ≡ out 0
unfolding put_window
put_window_head mem at out = let e : at - at ≡ 0 = omega arith in ground (arith, ap out e)

-- The one frame at a physical address.
at_phys_lem :
    (vm : Vm) (pt_ptr phys_addr flags : ℕ)
    → phys_addr < 2 ^ 32
    → flags < 4096
    → let (vm', ret) = at_phys vm pt_ptr 1 phys_addr flags in
      (vm'.mem pt_ptr ≡ bit_or phys_addr flags)
      × ((n : ℕ)
          → used vm'.frames.frames n
            ≡ (if phys_addr / 4096 == n then true else used vm.frames.frames n))
      × (vm'.pd ≡ vm.pd)
      × (ret ≡ 0)
unfolding at_phys put_window
at_phys_lem vm pt_ptr phys flags h f =
    let small : u16 flags ≡ flags = omega arith in
    let run = λ (n : ℕ).
      alloc_nframes_lem vm.frames.frames (window vm.mem pt_ptr) 1 phys (u16 flags) n 0 (omega arith)
        h in
    let address : u32 (phys + 0 * 4096) ≡ phys = omega arith in
    let twice : u16 (u16 flags) ≡ flags = omega arith in
    let first = run 0 in
    (
      put_window_head vm.mem pt_ptr
            (alloc_nframes vm.frames.frames 1 phys (window vm.mem pt_ptr) (u16 flags)).1
          ∙ first.1
          ∙ ap (λ a. bit_or a (u16 (u16 flags))) address
          ∙ ap (bit_or phys) twice,
      λ n. (run n).0 ∙ ground arith,
      refl,
      first.2,
    )

-- What a successful mapping of one page at a physical address leaves.
pub record Maps (vka : ℕ) (vm : Vm) (virt phys : ℕ) (m : Mapping) : Type 0 where
  pub succeeded : m.ret ≡ 0
  pub address : m.virt_addr 0 ≡ virt
  pub translated :
      (a : ℕ)
      → a < 2 ^ 32
      → a / 4096 ≡ virt / 4096
      → to_phys_addr vka (some (m.vm.pd)) m.vm.mem a ≡ phys + a % 4096
  pub marked :
      (n : ℕ)
      → used m.vm.frames.frames n ≡ (if phys / 4096 == n then true else used vm.frames.frames n)

kmmap_run :
    (fresh : ℕ → NewTable) (vm : Vm) (virt_addr : Words) (phys flags : ℕ) (b : Buddy) (va : Words)
    → buddy_alloc_frames vm.buddy virt_addr 1 ≡ some (b, va, 0)
    → kmmap fresh vm virt_addr phys flags
      ≡ with_table phys 1
          (u16 flags)
          (some (table_for fresh (record vm { buddy = b }) va (get_pde_pte (va 0)) 1 (u16 flags)))
unfolding kmmap knmmap knmmap_table
kmmap_run fresh vm virt_addr phys flags b va e =
    ap (λ r. with_table phys 1 (u16 flags) (buddy_gave fresh vm 1 (u16 flags) r)) e

-- `kmmap` of a physical page, when the buddy allocator has given a range: it succeeds, every
-- address of the virtual page is translated to the same offset in the physical page, and of the
-- frames exactly that of the physical page becomes used.
pub kmmap_lem :
    (vka : ℕ) (fresh : ℕ → NewTable) (vm : Vm) (virt_addr : Words) (phys flags : ℕ) (b : Buddy)
    (va : Words)
    → buddy_alloc_frames vm.buddy virt_addr 1 ≡ some (b, va, 0)
    → va 0 < 2 ^ 32
    → CanMap fresh vm.pd (va 0 / 2 ^ 22)
    → (0 < phys) × (phys < 2 ^ 32) × (phys % 4096 ≡ 0)
    → (0 < flags) × (flags < 4096)
    → (m : Mapping) × (kmmap fresh vm virt_addr phys flags ≡ some m) × Maps vka vm (va 0) phys m
unfolding table_for map_frames map_alloc_pt
kmmap_lem vka fresh vm virt_addr phys flags b va e lt can (pos, fits, aligned) (some_flag, small) =
    let f : u16 flags ≡ flags = omega arith in
    let pde = va 0 / 2 ^ 22 in
    let pte = va 0 / 2 ^ 12 % 1024 in
    let vm1 : Vm = record vm { buddy = b } in
    let m = map_alloc_pt fresh vm.pd vm.mem (λ _. 0) pde flags in
    let vm2 : Vm = record vm1 { pd = m.pd; mem = m.mem } in
    let (table, nonzero, ready) =
      map_alloc_pt-Ready fresh vm.pd vm.mem (λ _. 0) pde flags (omega arith) some_flag small can in
    let at = m.pt 0 + pte in
    let (entry, marks, same, ok) = at_phys_lem vm2 at phys flags fits small in
    let vm3 = (at_phys vm2 at 1 phys flags).0 in
    let some_phys : (phys == 0) ≡ false = ground arith in
    let run : with_table phys 1 flags (some (table_for fresh vm1 va (pde, pte) 1 flags))
        ≡ some (record { vm = vm3; virt_addr = va; ret = 0 }) =
      rw (ready.succeeded, some_phys, ok) refl in
    (
      record { vm = vm3; virt_addr = va; ret = 0 },
      kmmap_run fresh vm virt_addr phys flags b va e
          ∙ ap (λ g. with_table phys 1 g (some (table_for fresh vm1 va (get_pde_pte (va 0)) 1 g))) f
          ∙ ap (λ p. with_table phys 1 flags (some (table_for fresh vm1 va p 1 flags)))
              (get_pde_pte_lem (va 0) lt)
          ∙ run,
      record {
        succeeded = refl;
        address = refl;
        translated = λ a short page.
            let top : a / 2 ^ 22 ≡ pde = omega arith in
            let low : a / 2 ^ 12 % 1024 ≡ pte = omega arith in
            let virt : vm3.pd.page_tables_virt (a / 2 ^ 22) ≡ table =
              ap (λ (d : PageDir). d.page_tables_virt (a / 2 ^ 22)) same
              ∙ ap m.pd.page_tables_virt top
              ∙ ready.listed in
            to_phys_addr_entry vka vm3.pd vm3.mem a phys flags short (λ z. nonzero (sym virt ∙ z))
              (ap vm3.mem (omega (arith, virt, low, ready.given)) ∙ entry) fits aligned small;
        marked = marks;
      },
    )
