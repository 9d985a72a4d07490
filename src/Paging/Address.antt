-- ===== src/Paging/Address.antt =====
-- Virtual addresses as indices, and entries as an address with flags.
use Prim.Native.Nat.{bit_and, bit_or}
use xanadu_os.Base.{
  ℕ, ◌+◌, ◌-◌, ◌*◌, ◌/◌, ◌%◌, ◌^◌, ◌<◌, ◌≡◌, ◌≢◌, ◌∙◌, refl, sym, ap, arith, true, some, ◌==◌,
  if◌then◌else◌,
}
use xanadu_os.Base.Bits.{bit_and_low, bit_or-add, bit_and_disjoint, bit}
use xanadu_os.Base.Words.{u16, u32, clear_low, test_bit, test_bit-bit}
use xanadu_os.Base.Memory.{Words}
use xanadu_os.Paging.{PageDir, get_pde_pte, get_virt_addr, get_tab_pure_addr, to_phys_addr}

pub get_pde_pte_lem :
    (addr : ℕ) → addr < 2 ^ 32 → get_pde_pte addr ≡ (addr / 2 ^ 22, addr / 2 ^ 12 % 1024)
unfolding get_pde_pte
get_pde_pte_lem addr h =
    let low : bit_and (addr / 2 ^ 12) (2 ^ 10 - 1) ≡ addr / 2 ^ 12 % 2 ^ 10 =
      bit_and_low (addr / 2 ^ 12) 10 in
    rw low (
      let p : u16 (addr / 2 ^ 22) ≡ addr / 2 ^ 22 = omega arith in
      let q : u16 (addr / 2 ^ 12 % 1024) ≡ addr / 2 ^ 12 % 1024 = omega arith in rw (p, q) refl)

-- The indices of an address lead back to the start of its page, and the address of two indices
-- leads back to them.
pub get_virt_addr-get_pde_pte :
    (addr pde pte : ℕ)
    → addr < 2 ^ 32
    → pde < 1024
    → pte < 1024
    → (get_virt_addr (get_pde_pte addr).0 (get_pde_pte addr).1 ≡ addr - addr % 4096)
      × (get_pde_pte (get_virt_addr pde pte) ≡ (pde, pte))
unfolding get_virt_addr
get_virt_addr-get_pde_pte addr pde pte h p q = (
  rw (get_pde_pte_lem addr h) (omega arith),
  let v = pde * 0x400000 + pte * 4096 in
      let e : u32 v ≡ v = omega arith in
      let a : v / 2 ^ 22 ≡ pde = omega arith in
      let b : v / 2 ^ 12 % 1024 ≡ pte = omega arith in
      rw e (get_pde_pte_lem v (omega arith) ∙ rw (a, b) refl),
)

-- An entry is an address at a page's start with flags.
pub entry-sum :
    (addr flags : ℕ)
    → addr < 2 ^ 32
    → addr % 4096 ≡ 0
    → flags < 4096
    → bit_or addr flags ≡ addr + flags
entry-sum addr flags h e f =
    let q : addr / 4096 * 2 ^ 12 ≡ addr = omega arith in
    let apart : bit_and addr flags ≡ 0 =
      ap (λ t. bit_and t flags) (sym q) ∙ bit_and_disjoint 12 (addr / 4096) flags f in
    omega (arith, bit_or-add 32 addr flags h)

pub get_tab_pure_addr-bit_or :
    (addr flags : ℕ)
    → addr < 2 ^ 32
    → addr % 4096 ≡ 0
    → flags < 4096
    → get_tab_pure_addr (bit_or addr flags) ≡ addr
unfolding get_tab_pure_addr
get_tab_pure_addr-bit_or addr flags h e f =
    rw (entry-sum addr flags h e f) (clear_low (addr + flags) (omega arith) ∙ omega arith)

-- `to_phys_addr` with the indices of the address computed.
to_phys_addr_at :
    (vka : ℕ) (pd : PageDir) (mem : Words) (virt pde pte : ℕ)
    → get_pde_pte virt ≡ (pde, pte)
    → pd.page_tables_virt pde ≢ 0
    → to_phys_addr vka (some pd) mem virt
      ≡ u32 (get_tab_pure_addr (mem (pd.page_tables_virt pde + pte)) + bit_and virt 0xfff)
unfolding to_phys_addr
to_phys_addr_at vka pd mem virt pde pte e table =
    ap
      (λ (p : ℕ × ℕ).
        if pd.page_tables_virt p.0 == 0
        then 0
        else u32 (get_tab_pure_addr (mem (pd.page_tables_virt p.0 + p.1)) + bit_and virt 0xfff))
      e
    ∙ ground (arith, table)

-- Translation through an entry.
pub to_phys_addr_entry :
    (vka : ℕ) (pd : PageDir) (mem : Words) (virt addr flags : ℕ)
    → virt < 2 ^ 32
    → pd.page_tables_virt (virt / 2 ^ 22) ≢ 0
    → mem (pd.page_tables_virt (virt / 2 ^ 22) + virt / 2 ^ 12 % 1024) ≡ bit_or addr flags
    → addr < 2 ^ 32
    → addr % 4096 ≡ 0
    → flags < 4096
    → to_phys_addr vka (some pd) mem virt ≡ addr + virt % 4096
to_phys_addr_entry vka pd mem virt addr flags h table entry lt e f =
    let low : bit_and virt (2 ^ 12 - 1) ≡ virt % 2 ^ 12 = bit_and_low virt 12 in
    to_phys_addr_at vka pd mem virt (virt / 2 ^ 22) (virt / 2 ^ 12 % 1024) (get_pde_pte_lem virt h)
      table
    ∙ rw (entry, get_tab_pure_addr-bit_or addr flags lt e f, low) (omega arith)

-- The present bit of an entry is that of its flags.
pub tab_present-bit_or :
    (addr : ℕ) → addr < 2 ^ 32 → addr % 4096 ≡ 0 → test_bit (bit_or addr 3) 0 ≡ true
unfolding bit
tab_present-bit_or addr h e =
    rw (test_bit-bit (bit_or addr 3) 0, entry-sum addr 3 h e (omega arith)) (ground arith)
