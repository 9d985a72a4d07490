-- ===== src/Syscall/Tests.antt =====
-- A buffer of three words.
use xanadu_os.Base.{◌+◌, ◌≡◌}
use xanadu_os.Syscall.{sys_read}
use xanadu_os.Syscall.Read.{sys_read_lem}

sys_read_lem_example :
    let (buf', ret) = sys_read (λ i. 97 + i) (λ i. 0) 3 in (buf' 2 ≡ 99) × (ret ≡ 3)
sys_read_lem_example = sys_read_lem (λ i. 97 + i) (λ i. 0) 3 2
