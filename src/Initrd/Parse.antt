-- ===== src/Initrd/Parse.antt =====
-- The entries that the parser of the archive allocates.
use xanadu_os.Base.{
  ℕ, zero, suc, ◌+◌, ◌-◌, ◌/◌, ◌%◌, ◌<◌, ◌≡◌, inl, inr, refl, sym, arith, some, ltb, ◌==◌, ==_iff,
  Bool-cases, Option-cases,
}
use mathlib.Core.Option.{some-injective}
use mathlib.Core.Path.{subst}
use xanadu_os.Base.Words.{u32}
use xanadu_os.Base.Memory.{Words}
use xanadu_os.Slibc.{strnlen}
use xanadu_os.Initrd.{
  InitrdNode, TarState, entry_num, at, get_file_depth, next_header, add_entry, set_sub_ent_num,
  tar_parse_rec, tar_parse,
}

-- Two headers are passed for each entry; every entry behind the root stands at a header whose
-- contents follow it; headers lie at multiples of 512 bytes from the start.
pub record IsParsed (start : ℕ) (s : TarState) : Type 0 where
  pub counted : s.count ≡ s.i / 2
  pub aligned : s.next_addr % 512 ≡ start % 512
  pub contents :
      (k : ℕ) → 0 < k → k < s.count → (s.nodes k).content ≡ u32 ((s.nodes k).header + 512)

next_header-IsParsed :
    (mem : Words) (start header : ℕ) (s : TarState)
    → s.i % 2 ≡ 0
    → IsParsed start s
    → IsParsed start (next_header mem header s)
unfolding next_header
next_header-IsParsed mem start header s even p = record {
  counted = omega (arith, p.counted);
  aligned = ground (arith, p.aligned);
  contents = p.contents;
}

add_entry-IsParsed :
    (mem : Words) (start header len : ℕ) (s : TarState)
    → s.i % 2 ≡ 1
    → IsParsed start s
    → IsParsed start (next_header mem header (add_entry mem header len s))
unfolding next_header add_entry
add_entry-IsParsed mem start header len s odd p = record {
  counted = omega (arith, p.counted);
  aligned = ground (arith, p.aligned);
  contents = λ k a b. elim (Bool-cases (s.count == k)) [
    | inl same ↦ rw same refl
    | inr other ↦ rw other (p.contents k a (ground arith))
  ];
}

set_sub_ent_num-IsParsed :
    (start parent n : ℕ) (s : TarState)
    → IsParsed start s
    → IsParsed start (set_sub_ent_num parent n s)
unfolding set_sub_ent_num
set_sub_ent_num-IsParsed start parent n s p = record {
  counted = p.counted;
  aligned = p.aligned;
  contents = λ k a b. elim (Bool-cases (parent == k)) [
    | inl same ↦ let e : parent ≡ k = (==_iff parent k).0 same in rw same (rw e (p.contents k a b))
    | inr other ↦ rw other (p.contents k a b)
  ];
}

tar_parse_rec-IsParsed :
    (fuel : ℕ) (mem : Words) (start parent header depth sub_ent_num : ℕ) (s : TarState)
    {s' : TarState}
    → IsParsed start s
    → tar_parse_rec fuel mem parent header depth sub_ent_num s ≡ some s'
    → IsParsed start s'
unfolding tar_parse_rec
tar_parse_rec-IsParsed zero mem start parent header depth sub s p run = cc run
tar_parse_rec-IsParsed (suc f) mem start parent header depth sub s {s'} p run =
    let fname_len = strnlen (at mem header) 100 in
    let file_depth = get_file_depth (at mem header) fname_len in
    let ended = set_sub_ent_num-IsParsed start parent sub s p in
    elim (Bool-cases (mem header == 0)) [
      | inl nul ↦ subst (IsParsed start) (some-injective _ _ (rw nul at run)) ended
      | inr more ↦ elim (Bool-cases (s.i % 2 == 0)) [
        | inl even ↦
            tar_parse_rec-IsParsed f mem start parent _ depth sub _
              (next_header-IsParsed mem start header s ((==_iff _ 0).0 even) p)
              (rw (more, even) at run)
        | inr odd ↦ elim (Bool-cases (ltb depth file_depth)) [
          | inl below ↦
              elim (Option-cases (tar_parse_rec f mem (s.count - 1) header file_depth 0 s)) [
                | inl out ↦ cc (rw (more, odd, below, out) at run)
                | inr (t, inner) ↦
                    tar_parse_rec-IsParsed f mem start parent t.next_addr depth sub t
                      (tar_parse_rec-IsParsed f mem start (s.count - 1) header file_depth 0 s p
                        inner)
                      (rw (more, odd, below, inner) at run)
              ]
          | inr not_below ↦ elim (Bool-cases (ltb file_depth depth)) [
            | inl above ↦
                subst (IsParsed start)
                  (some-injective _ _ (rw (more, odd, not_below, above) at run)) ended
            | inr here ↦
                tar_parse_rec-IsParsed f mem start parent _ depth (sub + 1) _
                  (add_entry-IsParsed mem start header fname_len s (ground arith) p)
                  (rw (more, odd, not_below, here) at run)
          ]
        ]
      ]
    ]

first_IsParsed :
    (nodes : ℕ → InitrdNode) (start : ℕ)
    → IsParsed start (record { nodes = nodes; count = 1; next_addr = start; i = 2 })
first_IsParsed nodes start = record {
  counted = refl;
  aligned = refl;
  contents = λ k a b. absurd (omega arith);
}

pub tar_parse-IsParsed :
    (fuel : ℕ) (mem : Words) (old : ℕ → InitrdNode) (root_header initrd_addr : ℕ) {s : TarState}
    → tar_parse fuel mem old root_header initrd_addr ≡ some s
    → (entry_num s ≡ s.count)
      × ((k : ℕ) → 0 < k → k < s.count → (s.nodes k).content ≡ u32 ((s.nodes k).header + 512))
      × (s.next_addr % 512 ≡ initrd_addr % 512)
unfolding tar_parse
tar_parse-IsParsed fuel mem old root_header initrd_addr {s} run =
    let p =
      tar_parse_rec-IsParsed fuel mem initrd_addr 0 initrd_addr 1 0 _ (first_IsParsed _ initrd_addr)
        run in
    (sym p.counted, p.contents, p.aligned)
