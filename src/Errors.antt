-- ===== src/Errors.antt =====
-- kernel/lib/except.h: the error codes. `NO_ERROR` is one of them.
use tomat_os.Base.{Bool, true, false}

pub data Err : Type 0 where
  no_error : Err
  check_failed : Err
  out_of_memory : Err
  tdn_error : Err
  uacpi_error : Err

abbrev pub is_error : Err → Bool
is_error Err.no_error = false
is_error Err.check_failed = true
is_error Err.out_of_memory = true
is_error Err.tdn_error = true
is_error Err.uacpi_error = true
