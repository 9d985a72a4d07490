-- ===== src/Gdt/Tests.antt =====
-- The descriptor table at concrete addresses.
use xanadu_os.Base.{◌+◌, ◌-◌, ◌^◌, ◌%◌, ◌≡◌, true, false, arith, ◌==◌, leb, if◌then◌else◌}
use xanadu_os.Gdt.{Gdt, gdt_fill_entry, fill_gdt}
use xanadu_os.Gdt.Segments.{
  base_of, limit_of, last_offset, privilege, is_present, is_executable, gdt_fill_entry_lem,
  fill_gdt_lem,
}

abbrev blank : Gdt
blank = λ _. record {
  limit_low = 0;
  base_low = 0;
  base_middle = 0;
  acces = 0;
  limit_high = 0;
  flags = 0;
  base_high = 0;
}

gdt_fill_entry_lem_example :
    let e = gdt_fill_entry 5 0xC0123456 0x67 0x89 0 blank 5 in
    (base_of e ≡ 0xC0123456)
    × (limit_of e ≡ 0x67 % 2 ^ 20)
    × (e.acces ≡ 0x89)
    × (e.flags ≡ 0)
    × (gdt_fill_entry 5 0xC0123456 0x67 0x89 0 blank 2 ≡ (if 5 == 2 then e else blank 2))
gdt_fill_entry_lem_example =
    gdt_fill_entry_lem 5 0xC0123456 0x67 0x89 0 2 blank (omega arith) (omega arith) (omega arith)

fill_gdt_lem_example :
    let g' = fill_gdt 0xC0123456 104 blank in
    (is_present (g' 3) ≡ true)
    × (base_of (g' 3) ≡ 0)
    × (last_offset (g' 3) ≡ 2 ^ 32 - 1)
    × (privilege (g' 3) ≡ (if leb 3 3 then 3 else 0))
    × (is_executable (g' 3) ≡ (3 % 2 == 1))
    × (is_present (g' 0) ≡ false)
    × (base_of (g' 5) ≡ 0xC0123456)
    × (base_of (g' 5) + last_offset (g' 5) + 1 ≡ 0xC0123456 + 104)
fill_gdt_lem_example =
    fill_gdt_lem 0xC0123456 104 blank 3 (omega arith) (omega arith) (omega arith) (omega arith)
      (omega arith)
