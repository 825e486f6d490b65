-- ===== src/Errors.antt =====
-- kernel/src/main.rs: the error numbers that the system calls leave in `last_error`.
use rymos.Prelude.{ℕ}

abbrev pub err_ok : ℕ
err_ok = 0

abbrev pub err_inval : ℕ
err_inval = 22

abbrev pub err_noent : ℕ
err_noent = 2

abbrev pub err_nospc : ℕ
err_nospc = 28

abbrev pub err_notdir : ℕ
err_notdir = 20

abbrev pub err_isdir : ℕ
err_isdir = 21

abbrev pub err_exist : ℕ
err_exist = 17

abbrev pub err_io : ℕ
err_io = 5
