-- ===== src/Pic/Tests.antt =====
-- The interrupt controllers at concrete masks.
use xanadu_os.Base.{ℕ, ◌%◌, ◌≡◌, true, false, not, some, [], arith, ◌==◌, if◌then◌else◌}
use xanadu_os.Base.Words.{test_bit}
use xanadu_os.Base.Ports.{Device, last_value, outb}
use xanadu_os.Pic.{
  PicState, pic_mask, pic_unmask, pic_init, data_port, pic1_data, pic_eoi, pic1_command,
  pic2_command, pic_eoi_command,
}
use xanadu_os.Pic.Masks.{pic_mask-pic_unmask, pic_init-opens, pic_unmask-pic_init, pic_eoi_lem}

-- All lines masked.
abbrev closed : PicState
closed = record { cached_mask = 0xFFFF; out = [] }

abbrev silent : Device
silent = λ l port. 0

pic_mask-pic_unmask_example :
    let a = pic_mask 9 closed in
    let b = pic_unmask 9 closed in
    (a.out ≡ outb (data_port 9) a.cached_mask [])
    × (b.out ≡ outb (data_port 9) b.cached_mask [])
    × (test_bit a.cached_mask 1 ≡ (if 9 % 8 == 1 then true else test_bit 0xFFFF 1))
    × (test_bit b.cached_mask 1 ≡ (if 9 % 8 == 1 then false else test_bit 0xFFFF 1))
pic_mask-pic_unmask_example = pic_mask-pic_unmask 9 closed 1 (omega arith) (omega arith)

pic_init-opens_example :
    (v : ℕ) × (last_value (data_port 10) (pic_init silent 0x406 false closed).out ≡ some v)
    × (test_bit v (10 % 8) ≡ not (test_bit 0x406 10))
pic_init-opens_example =
    pic_init-opens silent 0x406 false closed 10 (omega arith) (omega arith) (omega arith)

pic_unmask-pic_init_example :
    (v : ℕ) × (last_value pic1_data (pic_unmask 4 (pic_init silent 0x406 false closed)).out
      ≡ some v)
    × (test_bit v 1 ≡ test_bit 0x406 1)
pic_unmask-pic_init_example =
    pic_unmask-pic_init silent 0x406 false closed 4 1 (omega arith) (omega arith) (omega arith)
      (omega arith)

pic_eoi_lem_example :
    (last_value pic1_command (pic_eoi 0x2E []) ≡ some pic_eoi_command)
    × (last_value pic2_command (pic_eoi 0x2E []) ≡ some pic_eoi_command)
pic_eoi_lem_example = pic_eoi_lem 0x2E
