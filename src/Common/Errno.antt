-- ===== src/Common/Errno.antt =====
-- Unix error codes, with Linux's numbers. 0 is success.
use Prim.Native.Nat.{ℕ}

abbrev pub enoent : ℕ
enoent = 2

abbrev pub e2big : ℕ
e2big = 7

abbrev pub ewouldblock : ℕ
ewouldblock = 11

abbrev pub enomem : ℕ
enomem = 12

abbrev pub eacces : ℕ
eacces = 13

abbrev pub einval : ℕ
einval = 22

abbrev pub enospc : ℕ
enospc = 28

abbrev pub epipe : ℕ
epipe = 32

abbrev pub enosys : ℕ
enosys = 38

abbrev pub emsgsize : ℕ
emsgsize = 90

abbrev pub eisconn : ℕ
eisconn = 106

abbrev pub ealready : ℕ
ealready = 114

abbrev pub einprogress : ℕ
einprogress = 115

abbrev pub eaddrinuse : ℕ
eaddrinuse = 98
