-- ===== src/Clone/Tests.antt =====
-- A directory with one entry for the user, whose table is empty.
use xanadu_os.Base.{ℕ, ◌+◌, ◌*◌, ◌≡◌, refl, arith, some, [], ◌==◌, if◌then◌else◌}
use xanadu_os.Base.Words.{test_bit}
use xanadu_os.Base.Memory.{write}
use xanadu_os.Paging.{PageDir, NewTable, clear_accessed}
use xanadu_os.Clone.{
  Cloning, clone_page_dir, dir_loop, clone_entry, clone_page_table, clone_entries,
}
use xanadu_os.Clone.Entries.{Hidden, clone_page_dir_lem}

abbrev user_dir : PageDir
user_dir = record {
  page_tables = λ i. if i == 0 then 0x5007 else 0;
  page_tables_virt = λ i. if i == 0 then 0x10000 else 0;
  pd_phys_addr = 0x1000;
}

abbrev no_dir : PageDir
no_dir = record { page_tables = λ i. 7; page_tables_virt = λ i. 0; pd_phys_addr = 0 }

abbrev start : Cloning
start = record {
  state = record {
    vm = record {
      frames = record {
        frames = λ i. 0;
        frames_num = 256;
        last_frame = λ i. record { frame_map = 0; frame = 0 };
      };
      buddy = record {
        mem_size = 0x800000;
        mem_start = 0;
        nodes = 12;
        lists = λ _. [];
        num_free = λ _. 0;
        map_base = λ o. 1000 * o;
        map_data = λ i. 0;
      };
      pd = user_dir;
      mem = λ i. 0;
    };
    copied = [];
  };
  new_pd = no_dir;
}

abbrev fresh : ℕ → ℕ → ℕ → NewTable
fresh pde pte n = record { table = 0x200000; phys = 0x800000 }

abbrev new_pts : ℕ → NewTable
new_pts pde = record { table = 0x20000 + 1024 * pde; phys = 0x900000 + 4096 * pde }

abbrev tables : NewTable
tables = record { table = 0x30000; phys = 0xA00000 }

copied_dir : (c : Cloning) × (clone_page_dir fresh new_pts tables 1 start ≡ some (c, 0))
unfolding clone_page_dir dir_loop clone_entry clone_page_table clone_entries test_bit clear_accessed
    write
copied_dir = (_, refl)

clone_page_dir_lem_example : Hidden 1024 copied_dir.0.new_pd
clone_page_dir_lem_example =
    clone_page_dir_lem fresh new_pts tables 1 start copied_dir.0 (λ i. omega arith) (omega arith)
      (omega arith) copied_dir.1
