-- ===== src/Mmap/Release.antt =====
-- What `kmunmap` releases.
use xanadu_os.Base.{
  ℕ, ◌+◌, ◌/◌, ◌%◌, ◌^◌, ◌≤◌, ◌<◌, ◌≡◌, ◌≢◌, ◌∙◌, refl, sym, ap, arith, true, false, some, ◌==◌,
  if◌then◌else◌,
}
use xanadu_os.Base.Words.{test_bit}
use xanadu_os.Base.Memory.{Words}
use xanadu_os.Frames.Walk.{used}
use xanadu_os.Frames.Meta.{dealloc_nframes-frees}
use xanadu_os.Buddy.{Buddy, buddy_free_frames, buddy_alloc_frames}
use xanadu_os.Paging.{NewTable, page_present, unmap_pages}
use xanadu_os.Paging.Address.{get_pde_pte_lem}
use xanadu_os.Paging.Unmap.{slot, unmap_pages_lem}
use xanadu_os.Mmap.{Vm, Mapping, kmmap, unmap_range, range_freed, knmunmap_contiguous, kmunmap}
use xanadu_os.Mmap.Translate.{CanMap, kmmap_lem}

-- What an unmapping of one page leaves.
pub record Unmaps (vm : Vm) (virt : ℕ) (vm' : Vm) : Type 0 where
  pub absent : page_present vm'.pd vm'.mem (virt / 2 ^ 22) (virt / 2 ^ 12 % 1024) ≡ false
  pub released :
      (n : ℕ)
      → used vm'.frames.frames n ≡ (if virt / 4096 == n then false else used vm.frames.frames n)

-- `kmunmap` of a page whose range the buddy allocator takes back: the page is not present
-- afterwards, and of the frames exactly the one is released whose number is that of the virtual page.
pub kmunmap_lem :
    (vm : Vm) (virt : ℕ) (b : Buddy)
    → buddy_free_frames vm.buddy virt 1 ≡ some b
    → virt + 4096 ≤ 2 ^ 32
    → (vm' : Vm) × (kmunmap vm virt ≡ some vm') × Unmaps vm virt vm'
unfolding kmunmap knmunmap_contiguous unmap_range
kmunmap_lem vm virt b freed fits =
    let pde = virt / 2 ^ 22 in
    let pte = virt / 2 ^ 12 % 1024 in
    let vm' = unmap_range vm (pde, pte) virt 1 b in
    let (gone, _, _) = unmap_pages_lem vm.pd vm.mem pde pte 1 (omega arith) (omega arith) in
    let place : slot vm.pd pde pte 0 ≡ vm.pd.page_tables_virt pde + pte =
      let top : pde + (pte + 0) / 1024 ≡ pde = omega arith in
      let low : (pte + 0) % 1024 ≡ pte = omega arith in rw (top, low) refl in
    (
      vm',
      ap (range_freed vm virt 1) freed
          ∙ ap (λ p. some (unmap_range vm p virt 1 b)) (get_pde_pte_lem virt (omega arith)),
      record {
        absent =
            ap (λ k. test_bit (unmap_pages vm.pd vm.mem pde pte 1 k) 0) (sym place)
            ∙ gone 0 (omega arith);
        released =
            λ n. dealloc_nframes-frees vm.frames.frames virt 1 n (omega arith) ∙ ground arith;
      },
    )

-- So a page that `kmmap` mapped is not given back by `kmunmap`: when the physical and the virtual
-- page have different numbers, the physical frame is used after the two calls.
pub kmunmap-kmmap :
    (fresh : ℕ → NewTable) (vm : Vm) (virt_addr : Words) (phys flags : ℕ) (b : Buddy) (va : Words)
    → buddy_alloc_frames vm.buddy virt_addr 1 ≡ some (b, va, 0)
    → va 0 + 4096 ≤ 2 ^ 32
    → CanMap fresh vm.pd (va 0 / 2 ^ 22)
    → (0 < phys) × (phys < 2 ^ 32) × (phys % 4096 ≡ 0)
    → (0 < flags) × (flags < 4096)
    → phys / 4096 ≢ va 0 / 4096
    → (m : Mapping) × (kmmap fresh vm virt_addr phys flags ≡ some m)
      × ((b' : Buddy)
          → buddy_free_frames m.vm.buddy (va 0) 1 ≡ some b'
          → (vm' : Vm) × (kmunmap m.vm (va 0) ≡ some vm')
            × (used vm'.frames.frames (phys / 4096) ≡ true))
kmunmap-kmmap fresh vm virt_addr phys flags b va e fits can at_page flag differ =
    let (m, run, maps) =
      kmmap_lem 0 fresh vm virt_addr phys flags b va e (omega arith) can at_page flag in
    (
      m,
      run,
      λ b' freed.
          let (vm', run', un) = kmunmap_lem m.vm (va 0) b' freed fits in
          (
            vm',
            run',
            un.released (phys / 4096) ∙ ground (arith, maps.marked (phys / 4096), differ),
          ),
    )
