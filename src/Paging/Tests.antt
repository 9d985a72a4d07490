-- ===== src/Paging/Tests.antt =====
-- Page directories at concrete addresses.
use xanadu_os.Base.{
  ℕ, ◌+◌, ◌-◌, ◌*◌, ◌/◌, ◌%◌, ◌^◌, ◌<◌, ◌≡◌, ◌≢◌, ◌⊎◌, ◌∙◌, refl, sym, true, false, some, arith,
  if◌then◌else◌, leb,
}
use mathlib.Core.Bool.{false≢true}
use xanadu_os.Base.Words.{test_bit}
use xanadu_os.Base.Memory.{Words}
use xanadu_os.Frames.{is_frame_free}
use xanadu_os.Frames.Walk.{used}
use xanadu_os.Paging.{
  PageDir, NewTable, FaultState, get_pde_pte, get_virt_addr, page_fault, to_phys_addr, unmap_pages,
  pt_present,
}
use xanadu_os.Paging.Address.{get_virt_addr-get_pde_pte}
use xanadu_os.Paging.Unmap.{slot, unmap_pages_lem}
use xanadu_os.Paging.Fault.{Exhausted, page_fault_lem}

get_virt_addr-get_pde_pte_example :
    (get_virt_addr (get_pde_pte 0xC0123456).0 (get_pde_pte 0xC0123456).1
      ≡ 0xC0123456 - 0xC0123456 % 4096)
    × (get_pde_pte (get_virt_addr 768 5) ≡ (768, 5))
get_virt_addr-get_pde_pte_example =
    get_virt_addr-get_pde_pte 0xC0123456 768 5 (omega arith) (omega arith) (omega arith)

-- Tables of every entry from 768 on, 1024 words apart; the others are not present.
abbrev kernel_pd : PageDir
kernel_pd = record {
  page_tables = λ i. if leb 768 i then 3 else 0;
  page_tables_virt = λ i. if leb 768 i then 1024 * i else 0;
  pd_phys_addr = 0x1000;
}

abbrev all_mapped : Words
all_mapped = λ i. 0x5003

-- Three pages over the end of a table.
unmap_pages_lem_example :
    let mem' = unmap_pages kernel_pd all_mapped 768 1022 3 in
    ((l : ℕ) → l < 3 → test_bit (mem' (slot kernel_pd 768 1022 l)) 0 ≡ false)
    × ((k j : ℕ) → 0 < j → j < 32 → test_bit (mem' k) j ≡ test_bit (all_mapped k) j)
    × ((k : ℕ) → ((l : ℕ) → l < 3 → slot kernel_pd 768 1022 l ≢ k) → mem' k ≡ all_mapped k)
unmap_pages_lem_example =
    unmap_pages_lem kernel_pd all_mapped 768 1022 3 (omega arith) (omega arith)

abbrev fresh : ℕ → NewTable
fresh = λ n. record { table = 0x200000 + 1024 * n; phys = 0x800000 + 4096 * n }

abbrev running : FaultState
running = record {
  frames = record {
    frames = λ i. 0;
    frames_num = 256;
    last_frame = λ i. record { frame_map = 0; frame = 0 };
  };
  pd = kernel_pd;
  mem = λ i. 0;
}

no_table : pt_present kernel_pd (0x100234 / 2 ^ 22) ≡ false
unfolding test_bit
no_table = refl

-- A user address without a table.
page_fault_lem_example :
    (s' : FaultState) × (page_fault fresh 0x100234 4 running ≡ some s')
    × (((w j : ℕ) × (is_frame_free running.frames.frames w j ≡ true)
          × (used s'.frames.frames (32 * w + j) ≡ true)
          × (to_phys_addr 0xC0000000 (some s'.pd) s'.mem 0x100234
              ≡ (32 * w + j) * 4096 + 0x100234 % 4096))
        ⊎ Exhausted running)
page_fault_lem_example =
    page_fault_lem 0xC0000000 fresh 0x100234 4 running (omega arith) (omega arith) (omega arith)
      (omega arith, omega arith, omega arith) (λ e. absurd (false≢true (sym no_table ∙ e)))
