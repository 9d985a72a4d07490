-- ===== src/Slibc/Tests.antt =====
-- The string functions at concrete strings.
use xanadu_os.Base.{
  ℕ, ◌+◌, ◌-◌, ◌*◌, ◌^◌, ◌<◌, ◌≡◌, inl, inr, refl, some, arith, ltb, leb, ◌&&◌, ◌==◌, if◌then◌else◌,
}
use xanadu_os.Base.Words.{u8, u32}
use xanadu_os.Base.Memory.{Words}
use xanadu_os.Slibc.{atoi, memset, memcpy, strcmp, strlen}
use xanadu_os.Slibc.Number.{value, octal_field, atoi_lem, atoi-octal_field, atoi-short_field}
use xanadu_os.Slibc.Copy.{memset_lem, memcpy_lem}
use xanadu_os.Slibc.Compare.{total, strcmp-total, strcmp_same_total}
use xanadu_os.Slibc.Length.{strlen_lem}

-- "AB", and "BA".
abbrev ab : Words
ab = λ i. if i == 0 then 65 else if i == 1 then 66 else 0

abbrev ba : Words
ba = λ i. if i == 0 then 66 else if i == 1 then 65 else 0

-- "0000644" and a NUL, in front of "0001".
abbrev mode_field : Words
mode_field = λ i.
    if i == 4
    then 54
    else if i == 5
    then 52
    else if i == 6
    then 52
    else if i == 7
    then 0
    else if i == 11
    then 49
    else 48

atoi_lem_example : atoi mode_field 8 8 ≡ u32 (value 8 mode_field 12)
atoi_lem_example = atoi_lem mode_field 8 8 (λ i h. ground arith)

atoi-octal_field_example : atoi (octal_field 1234567) 12 8 ≡ 1234567
atoi-octal_field_example = atoi-octal_field 1234567 (omega arith)

atoi-short_field_example :
    atoi mode_field 8 8 ≡ u32 (value 8 mode_field 7 * 8 ^ 4 + value 8 (λ i. mode_field (8 + i)) 4)
atoi-short_field_example =
    atoi-short_field mode_field (λ i h. ground arith) (λ i h k. ground arith) refl

memset_lem_example :
    let (mem', ret) = memset ab 1 0x178 3 in
    (mem' 2 ≡ (if leb 1 2 && ltb 2 (1 + 3) then u8 0x178 else ab 2)) × (ret ≡ 1)
memset_lem_example = memset_lem ab 1 0x178 3 2

memcpy_lem_example :
    let (mem', ret) = memcpy ab 10 1 4 in
    (mem' 10 ≡ (if leb 10 10 && ltb 10 (10 + 4) then ab (1 + (10 - 10)) else ab 10)) × (ret ≡ 10)
memcpy_lem_example = memcpy_lem ab 10 1 4 10 (omega arith) (omega arith) (inr (omega arith))

strcmp-total_example :
    (r : ℕ) × (strcmp 10 (some ab) (some ba) ≡ some r)
    × (r < 2 ^ 32)
    × (u32 (r + total 3 0 ba) ≡ u32 (total 3 0 ab))
strcmp-total_example =
    strcmp-total 2 10 ab ba (omega arith) (λ j h. (ground arith, ground arith)) (inl refl)
      (λ j. (ground arith, ground arith))

strcmp_same_total_example : strcmp 10 (some ab) (some ba) ≡ some 0
strcmp_same_total_example =
    strcmp_same_total 2 10 ab ba (omega arith) (λ j h. (ground arith, ground arith)) (inl refl)
      (λ j. (ground arith, ground arith)) refl

strlen_lem_example : strlen 10 ab ≡ some 2
strlen_lem_example = strlen_lem 10 2 ab (omega arith) (λ j h. ground arith) refl
