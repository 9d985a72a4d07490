-- ===== src/Initrd/Paths.antt =====
-- The parts of a file's name.
use xanadu_os.Base.{
  ℕ, zero, suc, ◌+◌, ◌-◌, ◌^◌, ◌≤◌, ◌<◌, ◌≡◌, ◌≢◌, ◌⊎◌, inl, inr, ◌∙◌, refl, ap, arith, ◌==◌,
  ==_iff, if◌then◌else◌, Bool-cases, not, ◌&&◌,
}
use xanadu_os.Base.Words.{sub32}
use xanadu_os.Base.Memory.{Words}
use xanadu_os.Initrd.{dir_name_loop, parse_file_dir_name, basename_loop, parse_file_basename}

-- `r` is the end of the part from `from` on: behind the first '/' or, if there is none, `end`.
pub record IsPart (name : Words) (from end r : ℕ) : Type 0 where
  pub lower : from ≤ r
  pub upper : r ≤ end
  pub plain : (j : ℕ) → from ≤ j → j + 1 < r → name j ≢ 47
  pub stop :
      ((from < r) × (name (r - 1) ≡ 47))
      ⊎ ((r ≡ end) × ((j : ℕ) → from ≤ j → j < end → name j ≢ 47))

IsPart-back :
    (name : Words) (i end r : ℕ) → name i ≢ 47 → IsPart name (i + 1) end r → IsPart name i end r
IsPart-back name i end r h p = record {
  lower = omega (arith, p.lower);
  upper = p.upper;
  plain = λ j a b. ground (arith, p.plain j);
  stop = elim (p.stop) [
    | inl (lt, slash) ↦ inl (omega arith, slash)
    | inr (e, all) ↦ inr (e, λ j a b. ground (arith, all j))
  ];
}

dir_name_loop-IsPart :
    (rounds dlen end : ℕ) (name : Words)
    → dlen + rounds ≡ end
    → IsPart name dlen end (dir_name_loop rounds dlen name)
unfolding dir_name_loop
dir_name_loop-IsPart zero dlen end name e = record {
  lower = omega arith;
  upper = omega arith;
  plain = λ j a b. absurd (omega arith);
  stop = inr (omega arith, λ j a b. absurd (omega arith));
}
dir_name_loop-IsPart (suc n) dlen end name e = elim (Bool-cases (name dlen == 47)) [
  | inl slash ↦ rw slash (record {
    lower = omega arith;
    upper = omega arith;
    plain = λ j a b. absurd (omega arith);
    stop = inl (omega arith, ap name (omega arith) ∙ (==_iff (name dlen) 47).0 slash);
  })
  | inr other ↦ rw other (
      IsPart-back name dlen end (dir_name_loop n (dlen + 1) name) (ground arith)
        (dir_name_loop-IsPart n (dlen + 1) end name (omega arith)))
]

-- `parse_file_dir_name` is the length of the first part of the name: up to the first '/', with it,
-- or the whole length if there is none.
pub parse_file_dir_name-IsPart :
    (name : Words) (full_len : ℕ) → IsPart name 0 full_len (parse_file_dir_name name full_len)
unfolding parse_file_dir_name
parse_file_dir_name-IsPart name full_len =
    dir_name_loop-IsPart full_len 0 full_len name (omega arith)

-- The name behind the last '/' before `from`.
pub record IsBase (name : Words) (from o : ℕ) : Type 0 where
  pub upper : o ≤ from
  pub plain : (j : ℕ) → o ≤ j → j < from → name j ≢ 47
  pub before : (o ≡ 0) ⊎ ((0 < o) × (name (o - 1) ≡ 47))

basename_loop-IsBase : (from : ℕ) (name : Words) → IsBase name from (basename_loop from name)
unfolding basename_loop
basename_loop-IsBase zero name = record {
  upper = omega arith;
  plain = λ j a b. absurd (omega arith);
  before = inl refl;
}
basename_loop-IsBase (suc o) name = elim (Bool-cases (name o == 47)) [
  | inl slash ↦ rw slash (record {
    upper = omega arith;
    plain = λ j a b. absurd (omega arith);
    before = inr (omega arith, ap name (omega arith) ∙ (==_iff (name o) 47).0 slash);
  })
  | inr other ↦
      let ih = basename_loop-IsBase o name in
      rw other (record {
        upper = omega (arith, ih.upper);
        plain = λ j a b. elim (Bool-cases (j == o)) [
          | inl same ↦ let s : j ≡ o = (==_iff j o).0 same in rw s (ground arith)
          | inr less ↦ ih.plain j a (ground arith)
        ];
        before = ih.before;
      })
]

-- `parse_file_basename` of a name that is not empty gives the start of its last part, a '/' at its
-- end not counted as a separator; it shortens the length exactly by such a '/', unless that is the
-- whole last part.
pub parse_file_basename_lem :
    (name : Words) (len : ℕ)
    → 0 < len
    → len < 2 ^ 32
    → let (offset, len') = parse_file_basename name len in
      IsBase name (len - 1) offset
      × (len' ≡ (if not (offset == len - 1) && (name (len - 1) == 47) then len - 1 else len))
unfolding parse_file_basename
parse_file_basename_lem name len h lt =
    let e : sub32 len 1 ≡ len - 1 = omega arith in rw e (basename_loop-IsBase (len - 1) name, refl)
