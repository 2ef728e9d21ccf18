-- ===== src/Posix.antt =====
-- What the HALs use of the kernel and of libc: errno values, and the answers of the system calls.
-- None of it is code of this repository, so an answer is an argument of the model: 0 or an errno for
-- one call, a script (`Reads`, `Writes`) for a loop of calls. A script ends in an answer that ends
-- every loop, so it stands for each run in which the interruptions come to an end.
pub mod Exact
pub mod Decimal
use android_device_meizu_m.Prelude.{ℕ}

-- errno, as the kernel's asm-generic headers number it
abbrev pub eperm : ℕ
eperm = 1

abbrev pub enoent : ℕ
enoent = 2

abbrev pub eio : ℕ
eio = 5

abbrev pub enomem : ℕ
enomem = 12

abbrev pub efault : ℕ
efault = 14

abbrev pub ebusy : ℕ
ebusy = 16

abbrev pub enodev : ℕ
enodev = 19

abbrev pub einval : ℕ
einval = 22

abbrev pub enospc : ℕ
enospc = 28

abbrev pub enametoolong : ℕ
enametoolong = 36

abbrev pub enosys : ℕ
enosys = 38

abbrev pub eoverflow : ℕ
eoverflow = 75

-- PATH_MAX of limits.h
abbrev pub path_max : ℕ
path_max = 4096
