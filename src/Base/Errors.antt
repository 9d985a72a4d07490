-- ===== src/Base/Errors.antt =====
-- include/kernel/error.h: the codes that fallible functions return; 0 is success.
use xanadu_os.Base.{ℕ}

abbrev pub eio : ℕ
eio = 1

abbrev pub einval : ℕ
einval = 2

abbrev pub enomem : ℕ
enomem = 3

abbrev pub enoent : ℕ
enoent = 4
