-- ===== src/Status.antt =====
-- include/types/status.h: the status codes that the system calls return, as C integers.
use cros_kernel.Base.{ℤ, pos, negsuc}

abbrev pub enone : ℤ
enone = pos 0

abbrev pub eunknown : ℤ
eunknown = negsuc 0

abbrev pub enosys : ℤ
enosys = negsuc 1

abbrev pub eeof : ℤ
eeof = negsuc 2

abbrev pub enofile : ℤ
enofile = negsuc 3

abbrev pub enomem : ℤ
enomem = negsuc 4

abbrev pub einval : ℤ
einval = negsuc 5

abbrev pub eio : ℤ
eio = negsuc 6

abbrev pub eexists : ℤ
eexists = negsuc 7

abbrev pub epipe : ℤ
epipe = negsuc 8

abbrev pub efull : ℤ
efull = negsuc 9
