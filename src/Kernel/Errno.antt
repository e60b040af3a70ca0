-- ===== src/Kernel/Errno.antt =====
-- The errno values that the sources name.
use platform_system_netd.Prelude.{ℕ}

abbrev pub eperm : ℕ
eperm = 1

abbrev pub enoent : ℕ
enoent = 2

abbrev pub esrch : ℕ
esrch = 3

abbrev pub ebadf : ℕ
ebadf = 9

abbrev pub echild : ℕ
echild = 10

abbrev pub eacces : ℕ
eacces = 13

abbrev pub efault : ℕ
efault = 14

abbrev pub ebusy : ℕ
ebusy = 16

abbrev pub eexist : ℕ
eexist = 17

abbrev pub enodev : ℕ
enodev = 19

abbrev pub einval : ℕ
einval = 22

abbrev pub enospc : ℕ
enospc = 28

abbrev pub erange : ℕ
erange = 34

abbrev pub enametoolong : ℕ
enametoolong = 36

abbrev pub enonet : ℕ
enonet = 64

abbrev pub eproto : ℕ
eproto = 71

abbrev pub ebadmsg : ℕ
ebadmsg = 74

abbrev pub eusers : ℕ
eusers = 87

abbrev pub enobufs : ℕ
enobufs = 105

abbrev pub eremoteio : ℕ
eremoteio = 121

abbrev pub eafnosupport : ℕ
eafnosupport = 97
