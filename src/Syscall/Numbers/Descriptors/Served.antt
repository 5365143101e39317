-- ===== src/Syscall/Numbers/Descriptors/Served.antt =====
-- The numbers of a process in root/src/kernel/proc/syscalls.c over the descriptors of
-- root/src/kernel/fd/fd.c.
use qword.Syscall.Numbers.Owned.{Owned}
use qword.Syscall.Numbers.Descriptors.{Descriptors}
