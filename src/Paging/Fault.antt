-- ===== src/Paging/Fault.antt =====
-- A page fault gives the page a frame.
use Prim.Native.Nat.{bit_or}
use xanadu_os.Base.{
  ℕ, ◌+◌, ◌*◌, ◌/◌, ◌%◌, ◌^◌, ◌≤◌, ◌<◌, ◌≡◌, ◌≢◌, ◌⊎◌, inl, inr, ◌∙◌, refl, sym, ap, arith, true,
  false, Bool-cases, some, ◌==◌, if◌then◌else◌,
}
use xanadu_os.Base.Errors.{enomem}
use xanadu_os.Frames.{FrameState, is_frame_free, frame_map_to_addr}
use xanadu_os.Frames.Walk.{used}
use xanadu_os.Frames.Meta.{frame_map_to_addr_lem}
use xanadu_os.Frames.Single.{find_alloc_frame_lem}
use xanadu_os.Paging.{
  PageDir, NewTable, FaultState, window, put_window, frame_into, store_frame, fault_result,
  always_one, after_fault, map_alloc_pt, pt_present, page_present, get_pde_pte,
  non_present_page_hanler, page_fault, to_phys_addr,
}
use xanadu_os.Paging.Address.{get_pde_pte_lem, to_phys_addr_entry}
use xanadu_os.Paging.Tables.{map_alloc_pt_absent}

-- A frame that was free stands in the entry, and is used.
pub record Framed (s : FaultState) (at : ℕ) (s' : FaultState) : Type 0 where
  pub w : ℕ
  pub j : ℕ
  pub before : w < s.frames.frames_num
  pub first_eight : j < 8
  pub free : is_frame_free s.frames.frames w j ≡ true
  pub taken : used s'.frames.frames (32 * w + j) ≡ true
  pub same : s'.pd ≡ s.pd
  pub entry : s'.mem at ≡ bit_or (frame_map_to_addr w j) 3

abbrev pub Exhausted : FaultState → Type 0
Exhausted s =
    (w j : ℕ) → w < s.frames.frames_num → j < 8 → is_frame_free s.frames.frames w j ≡ false

frame_into_lem :
    (s : FaultState) (at : ℕ)
    → s.frames.frames_num ≤ 2 ^ 15
    → ((s' : FaultState) × (frame_into s at ≡ some (s', 0)) × Framed s at s')
      ⊎ ((s' : FaultState) × (frame_into s at ≡ some (s', enomem)) × Exhausted s)
unfolding frame_into store_frame put_window
frame_into_lem s at room =
    elim (find_alloc_frame_lem s.frames (window s.mem at) 3 room (omega arith)) [
      | inl p ↦
          let f = p.f in
          let s' : FaultState = record s {
            frames = record (s.frames) { frames = f.frames };
            mem = put_window s.mem at 1 f.addrs;
          } in
          inl (
            s',
            ap (store_frame s at) p.result ∙ ground (arith, p.takes.succeeded),
            record {
              w = p.w;
              j = p.j;
              before = p.before;
              first_eight = p.single;
              free = p.free;
              taken = p.takes.marked (32 * p.w + p.j) ∙ ground arith;
              same = refl;
              entry = ground (arith, p.takes.handed 0);
            },
          )
      | inr (e, all) ↦ inr (_, ap (store_frame s at) e, all)
    ]

-- The state of a fault whose table is there or has been made.
pub record Handled (s : FaultState) (pde pte : ℕ) (s' : FaultState) : Type 0 where
  pub w : ℕ
  pub j : ℕ
  pub before : w < s.frames.frames_num
  pub first_eight : j < 8
  pub free : is_frame_free s.frames.frames w j ≡ true
  pub taken : used s'.frames.frames (32 * w + j) ≡ true
  pub table : s'.pd.page_tables_virt pde ≢ 0
  pub entry : s'.mem (s'.pd.page_tables_virt pde + pte) ≡ bit_or (frame_map_to_addr w j) 3

Framed-Handled :
    (s s1 s' : FaultState) (pde pte at : ℕ)
    → s1.frames ≡ s.frames
    → at ≡ s1.pd.page_tables_virt pde + pte
    → s1.pd.page_tables_virt pde ≢ 0
    → Framed s1 at s'
    → Handled s pde pte s'
Framed-Handled s s1 s' pde pte at same place nonzero f =
    let frames_num = ap (λ (t : FrameState). t.frames_num) same in
    let frames = ap (λ (t : FrameState). t.frames) same in
    let table = ap (λ (t : PageDir). t.page_tables_virt pde) f.same in
    record {
      w = f.w;
      j = f.j;
      before = omega (arith, f.before, frames_num);
      first_eight = f.first_eight;
      free = ap (λ m. is_frame_free m f.w f.j) (sym frames) ∙ f.free;
      taken = f.taken;
      table = λ e. nonzero (sym table ∙ e);
      entry = ap s'.mem (ap (λ t. t + pte) table ∙ sym place) ∙ f.entry;
    }

handler_absent :
    (fresh : ℕ → NewTable) (pde pte : ℕ) (s : FaultState)
    → let m = map_alloc_pt fresh s.pd s.mem (λ _. 0) pde 3 in
      pt_present s.pd pde ≡ false
      → m.ret ≡ 0
      → non_present_page_hanler fresh pde pte s
        ≡ fault_result (frame_into (record s { pd = m.pd; mem = m.mem }) (m.pt 0 + pte))
unfolding non_present_page_hanler
handler_absent fresh pde pte s absent ok =
    let zero_ret : (0 == 0) ≡ true = refl in rw (absent, ok) refl

handler_present :
    (fresh : ℕ → NewTable) (pde pte : ℕ) (s : FaultState)
    → pt_present s.pd pde ≡ true
    → page_present s.pd s.mem pde pte ≡ false
    → non_present_page_hanler fresh pde pte s
      ≡ always_one (frame_into s (s.pd.page_tables_virt pde + pte))
unfolding non_present_page_hanler
handler_present fresh pde pte s table page = rw (table, page) refl

handler_lem :
    (fresh : ℕ → NewTable) (pde pte : ℕ) (s : FaultState)
    → s.frames.frames_num ≤ 2 ^ 15
    → pde < 1024
    → ((fresh 0).table ≢ 0) × ((fresh 0).phys < 2 ^ 32) × ((fresh 0).phys % 4096 ≡ 0)
    → (pt_present s.pd pde ≡ true
        → (s.pd.page_tables_virt pde ≢ 0) × (page_present s.pd s.mem pde pte ≡ false))
    → (s' : FaultState) × (ret : ℕ) × (non_present_page_hanler fresh pde pte s ≡ some (s', ret))
      × (Handled s pde pte s' ⊎ Exhausted s)
handler_lem fresh pde pte s room h new old = elim (Bool-cases (pt_present s.pd pde)) [
  | inl table ↦
      let (nonzero, page) = old table in
      let at = s.pd.page_tables_virt pde + pte in
      let run = handler_present fresh pde pte s table page in
      elim (frame_into_lem s at room) [
        | inl (s', e, f) ↦ (
          s',
          1,
          run ∙ ap always_one e,
          inl (Framed-Handled s s s' pde pte at refl refl nonzero f),
        )
        | inr (s', e, all) ↦ (s', 1, run ∙ ap always_one e, inr all)
      ]
  | inr absent ↦
      let m = map_alloc_pt fresh s.pd s.mem (λ _. 0) pde 3 in
      let (ready, _) =
        map_alloc_pt_absent fresh s.pd s.mem (λ _. 0) pde 3 (omega arith) absent new.1 new.2
          (omega arith) (omega arith) in
      let s1 : FaultState = record s { pd = m.pd; mem = m.mem } in
      let at = m.pt 0 + pte in
      let run = handler_absent fresh pde pte s absent ready.succeeded in
      elim (frame_into_lem s1 at room) [
        | inl (s', e, f) ↦ (
          s',
          1,
          run ∙ ap fault_result e,
          inl (
              Framed-Handled s s1 s' pde pte at refl
                (ap (λ t. t + pte) (ready.given ∙ sym ready.listed))
                (λ z. new.0 (sym ready.listed ∙ z)) f),
        )
        | inr (s', e, all) ↦ (s', enomem, run ∙ ap fault_result e, inr all)
      ]
]

page_fault_at :
    (fresh : ℕ → NewTable) (fault_addr error pde pte : ℕ) (s : FaultState)
    → get_pde_pte fault_addr ≡ (pde, pte)
    → error ≢ 1
    → page_fault fresh fault_addr error s ≡ after_fault (non_present_page_hanler fresh pde pte s)
unfolding page_fault
page_fault_at fresh fault_addr error pde pte s e other =
    let runs : (error == 1) ≡ false = ground (arith, other) in
    ap
      (λ (p : ℕ × ℕ).
        if error == 1 then some s else after_fault (non_present_page_hanler fresh p.0 p.1 s))
      e
    ∙ rw runs refl

-- A page fault at an address whose page is not present, with any error code but 1: the handler
-- ends, and the address is translated to a frame that was free, which is used afterwards; or the
-- first eight frames of every word of the bitmap were used.
pub page_fault_lem :
    (vka : ℕ) (fresh : ℕ → NewTable) (fault_addr error : ℕ) (s : FaultState)
    → let pde = fault_addr / 2 ^ 22 in
      let pte = fault_addr / 2 ^ 12 % 1024 in
      fault_addr < 2 ^ 32
      → error ≢ 1
      → s.frames.frames_num ≤ 2 ^ 15
      → ((fresh 0).table ≢ 0) × ((fresh 0).phys < 2 ^ 32) × ((fresh 0).phys % 4096 ≡ 0)
      → (pt_present s.pd pde ≡ true
          → (s.pd.page_tables_virt pde ≢ 0) × (page_present s.pd s.mem pde pte ≡ false))
      → (s' : FaultState) × (page_fault fresh fault_addr error s ≡ some s')
        × (((w j : ℕ) × (is_frame_free s.frames.frames w j ≡ true)
              × (used s'.frames.frames (32 * w + j) ≡ true)
              × (to_phys_addr vka (some s'.pd) s'.mem fault_addr
                  ≡ (32 * w + j) * 4096 + fault_addr % 4096))
            ⊎ Exhausted s)
unfolding page_fault
page_fault_lem vka fresh fault_addr error s lt other room new old =
    let pde = fault_addr / 2 ^ 22 in
    let pte = fault_addr / 2 ^ 12 % 1024 in
    let (s', ret, run, outcome) = handler_lem fresh pde pte s room (omega arith) new old in
    (
      s',
      page_fault_at fresh fault_addr error pde pte s (get_pde_pte_lem fault_addr lt) other
          ∙ ap after_fault run,
      elim outcome [
        | inl f ↦
            let place =
              frame_map_to_addr_lem f.w f.j (omega (arith, f.before))
                (omega (arith, f.first_eight)) in
            inl (
              f.w,
              f.j,
              f.free,
              f.taken,
              to_phys_addr_entry vka s'.pd s'.mem fault_addr (frame_map_to_addr f.w f.j) 3 lt
                    f.table f.entry (omega (arith, place, f.before, f.first_eight))
                    (omega (arith, place)) (omega arith)
                  ∙ ap (λ t. t + fault_addr % 4096) place,
            )
        | inr all ↦ inr all
      ],
    )
