-- ===== src/Initrd/Ends.antt =====
-- The parser of the archive ends, with fuel for two rounds for each header.
use xanadu_os.Base.{
  ℕ, zero, suc, ◌+◌, ◌-◌, ◌*◌, ◌%◌, ◌≤◌, ◌<◌, ◌≡◌, ◌≢◌, inl, inr, ◌∙◌, refl, sym, ap, arith, true,
  false, Option, some, ltb, ◌==◌, Bool-cases,
}
use xanadu_os.Base.Words.{u32}
use xanadu_os.Base.Memory.{Words}
use xanadu_os.Slibc.{strnlen}
use xanadu_os.Initrd.{
  InitrdNode, TarState, entry_num, at, align_up, get_file_depth, next_header, add_entry,
  set_sub_ent_num, tar_parse_rec, tar_parse, tar_file_size,
}
use xanadu_os.Initrd.Parse.{tar_parse-IsParsed}

-- Where the header behind one lies.
abbrev pub behind : Words → ℕ → ℕ
behind mem a = u32 (a + align_up (u32 (512 + tar_file_size mem a)) 512)

-- `n` headers from an address on, the last followed by a name that is empty.
abbrev pub Headers : Words → (n a : ℕ) → Type 0
Headers mem zero a = mem a ≡ 0
Headers mem (suc n) a = (mem a ≢ 0) × Headers mem n (behind mem a)

-- The result of a run over `n` headers: it leaves a number of them.
pub record Done (mem : Words) (n : ℕ) (r : Option TarState) : Type 0 where
  pub s : TarState
  pub left : ℕ
  pub result : r ≡ some s
  pub fewer : left ≤ n
  pub headers : Headers mem left s.next_addr

next_header-addr :
    (mem : Words) (header : ℕ) (s : TarState)
    → header ≡ s.next_addr
    → behind mem header ≡ (next_header mem header s).next_addr
unfolding next_header
next_header-addr mem header s e = rw e refl

add_entry-addr :
    (mem : Words) (header len : ℕ) (s : TarState)
    → (add_entry mem header len s).next_addr ≡ s.next_addr
unfolding add_entry
add_entry-addr mem header len s = refl

set_sub_ent_num-addr :
    (parent n : ℕ) (s : TarState) → (set_sub_ent_num parent n s).next_addr ≡ s.next_addr
unfolding set_sub_ent_num
set_sub_ent_num-addr parent n s = refl

-- From a round that returns or goes on, to the run.
stays :
    (mem : Words) (n parent sub : ℕ) (s : TarState) {r : Option TarState}
    → Headers mem n s.next_addr
    → r ≡ some (set_sub_ent_num parent sub s)
    → Done mem n r
stays mem n parent sub s h e = record {
  s = set_sub_ent_num parent sub s;
  left = n;
  result = e;
  fewer = omega arith;
  headers = rw (set_sub_ent_num-addr parent sub s) h;
}

onward :
    (mem : Words) (n m : ℕ) {r r' : Option TarState} → n ≤ m → r ≡ r' → Done mem n r' → Done mem m r
onward mem n m le e d = record {
  s = d.s;
  left = d.left;
  result = e ∙ d.result;
  fewer = omega (arith, d.fewer);
  headers = d.headers;
}

-- From the entries of a directory to what follows them.
after :
    (mem : Words) (n m : ℕ) {r r' : Option TarState} (rest : TarState → Option TarState)
    → n ≤ m
    → ((t : TarState) → r' ≡ some t → r ≡ rest t)
    → Done mem n r'
    → ((left : ℕ) (t : TarState) → left ≤ n → Headers mem left t.next_addr → Done mem left (rest t))
    → Done mem m r
after mem n m rest le e d next =
    onward mem d.left m (omega (arith, d.fewer)) (e d.s d.result)
      (next d.left d.s d.fewer d.headers)

deeper_step :
    (f : ℕ) (mem : Words) (parent header depth sub : ℕ) (s t : TarState)
    → let file_depth = get_file_depth (at mem header) (strnlen (at mem header) 100) in
      (mem header == 0) ≡ false
      → (s.i % 2 == 0) ≡ false
      → ltb depth file_depth ≡ true
      → tar_parse_rec f mem (s.count - 1) header file_depth 0 s ≡ some t
      → tar_parse_rec (suc f) mem parent header depth sub s
        ≡ tar_parse_rec f mem parent t.next_addr depth sub t
unfolding tar_parse_rec
deeper_step f mem parent header depth sub s t more odd below run = rw (more, odd, below, run) refl

module _ (mem : Words) where
  tar_parse_rec-Done :
      (bound n fuel parent header depth sub : ℕ) (s : TarState)
      → n ≤ bound
      → 2 * n < fuel
      → header ≡ s.next_addr
      → Headers mem n header
      → Done mem n (tar_parse_rec fuel mem parent header depth sub s)
  unfolding tar_parse_rec
  tar_parse_rec-Done bound n zero parent header depth sub s b f e h = absurd (omega arith)
  tar_parse_rec-Done bound zero (suc f) parent header depth sub s b fu e h =
      stays mem 0 parent sub s (ap mem (sym e) ∙ h) (rw h refl)
  tar_parse_rec-Done zero (suc n) (suc f) parent header depth sub s b fu e h = absurd (omega arith)
  tar_parse_rec-Done (suc bound) (suc n) (suc zero) parent header depth sub s b fu e h =
      absurd (omega arith)
  tar_parse_rec-Done (suc bound) (suc n) (suc (suc f)) parent header depth sub s b fu e h =
      let fname_len = strnlen (at mem header) 100 in
      let file_depth = get_file_depth (at mem header) fname_len in
      let more : (mem header == 0) ≡ false = ground (arith, h.0) in
      let added = add_entry mem header fname_len s in
      let skip_addr = next_header-addr mem header s e in
      let entry_addr =
        next_header-addr mem header added (e ∙ sym (add_entry-addr mem header fname_len s)) in
      elim (Bool-cases (s.i % 2 == 0)) [
        | inl even ↦ onward mem n (suc n) (omega arith) (rw (more, even) refl) (
            tar_parse_rec-Done bound n (suc f) parent _ depth sub (next_header mem header s)
              (omega arith) (omega arith) refl (rw (← skip_addr) (h.1)))
        | inr odd ↦ elim (Bool-cases (ltb depth file_depth)) [
          | inl below ↦
              let level : ltb file_depth file_depth ≡ false = ground arith in
              let inner : Done mem n
                  (tar_parse_rec (suc f) mem (s.count - 1) header file_depth 0 s) =
                onward mem n n (omega arith) (rw (more, odd, level) refl) (
                  tar_parse_rec-Done bound n f (s.count - 1) _ file_depth 1
                    (next_header mem header added) (omega arith) (omega arith) refl
                    (rw (← entry_addr) (h.1))) in
              after mem n (suc n) (λ t. tar_parse_rec (suc f) mem parent t.next_addr depth sub t)
                (omega arith)
                (λ t run. deeper_step (suc f) mem parent header depth sub s t more odd below run)
                inner
                (λ left t le hs.
                  tar_parse_rec-Done bound left (suc f) parent t.next_addr depth sub t (omega arith)
                    (omega arith) refl hs)
          | inr not_below ↦ elim (Bool-cases (ltb file_depth depth)) [
            | inl above ↦
                stays mem (suc n) parent sub s (rw (← e) h) (rw (more, odd, not_below, above) refl)
            | inr here ↦ onward mem n (suc n) (omega arith) (rw (more, odd, not_below, here) refl) (
                tar_parse_rec-Done bound n (suc f) parent _ depth (sub + 1)
                  (next_header mem header added) (omega arith) (omega arith) refl
                  (rw (← entry_addr) (h.1)))
          ]
        ]
      ]

-- On an archive of `n` headers `tar_parse` ends, with fuel for two rounds a header. The number that
-- it returns is the number of entries that it allocated, the root among them, so that
-- `initrd_build_tree` copies each to a node of its own; the contents of every entry but the root lie
-- 512 bytes behind its header; and it stops a multiple of 512 bytes behind the archive's start.
pub tar_parse_lem :
    (n fuel : ℕ) (mem : Words) (old : ℕ → InitrdNode) (root_header initrd_addr : ℕ)
    → Headers mem n initrd_addr
    → 2 * n < fuel
    → (s : TarState) × (tar_parse fuel mem old root_header initrd_addr ≡ some s)
      × (entry_num s ≡ s.count)
      × ((k : ℕ) → 0 < k → k < s.count → (s.nodes k).content ≡ u32 ((s.nodes k).header + 512))
      × (s.next_addr % 512 ≡ initrd_addr % 512)
unfolding tar_parse
tar_parse_lem n fuel mem old root_header initrd_addr h f =
    let d = tar_parse_rec-Done mem n n fuel 0 initrd_addr 1 0 _ (omega arith) f refl h in
    let (counted, contents, aligned) =
      tar_parse-IsParsed fuel mem old root_header initrd_addr d.result in
    (d.s, d.result, counted, contents, aligned)
