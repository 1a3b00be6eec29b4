-- ===== src/Errors/Codes.antt =====
-- The error numbers of libvdso/src/error.rs.
use miniature.Base.{ℕ}

pub data Errno : Type 0 where
  eperm enoent esrch eintr eio enxio e2big enoexec ebadf echild eagain enomem eacces : Errno
  efault enotblk ebusy eexist exdev enodev enotdir eisdir einval enfile emfile enotty : Errno
  etxtbsy efbig enospc espipe erofs emlink epipe edom erange edeadlk enametoolong enolck : Errno
  enosys enotempty eloop ewouldblock enomsg eidrm echrng el2nsync el3hlt el3rst elnrng : Errno
  eunatch enocsi el2hlt ebade ebadr exfull enoano ebadrqc ebadslt edeadlock ebfont enostr : Errno
  enodata etime enosr enonet enopkg eremote enolink eadv esrmnt ecomm eproto emultihop : Errno
  edotdot ebadmsg eoverflow enotuniq ebadfd eremchg elibacc elibbad elibscn elibmax : Errno
  elibexec eilseq erestart estrpipe eusers enotsock edestaddrreq emsgsize eprototype : Errno
  enoprotoopt eprotonosupport esocktnosupport eopnotsupp epfnosupport eafnosupport : Errno
  eaddrinuse eaddrnotavail enetdown enetunreach enetreset econnaborted econnreset enobufs : Errno
  eisconn enotconn eshutdown etoomanyrefs etimedout econnrefused ehostdown ehostunreach : Errno
  ealready einprogress estale euclean enotnam enavail eisnam eremoteio edquot enomedium : Errno
  emediumtype ecanceled enokey ekeyexpired ekeyrevoked ekeyrejected eownerdead : Errno
  enotrecoverable : Errno

unfoldable pub number : Errno → ℕ
number eperm = 1
number enoent = 2
number esrch = 3
number eintr = 4
number eio = 5
number enxio = 6
number e2big = 7
number enoexec = 8
number ebadf = 9
number echild = 10
number eagain = 11
number enomem = 12
number eacces = 13
number efault = 14
number enotblk = 15
number ebusy = 16
number eexist = 17
number exdev = 18
number enodev = 19
number enotdir = 20
number eisdir = 21
number einval = 22
number enfile = 23
number emfile = 24
number enotty = 25
number etxtbsy = 26
number efbig = 27
number enospc = 28
number espipe = 29
number erofs = 30
number emlink = 31
number epipe = 32
number edom = 33
number erange = 34
number edeadlk = 35
number enametoolong = 36
number enolck = 37
number enosys = 38
number enotempty = 39
number eloop = 40
number ewouldblock = 41
number enomsg = 42
number eidrm = 43
number echrng = 44
number el2nsync = 45
number el3hlt = 46
number el3rst = 47
number elnrng = 48
number eunatch = 49
number enocsi = 50
number el2hlt = 51
number ebade = 52
number ebadr = 53
number exfull = 54
number enoano = 55
number ebadrqc = 56
number ebadslt = 57
number edeadlock = 58
number ebfont = 59
number enostr = 60
number enodata = 61
number etime = 62
number enosr = 63
number enonet = 64
number enopkg = 65
number eremote = 66
number enolink = 67
number eadv = 68
number esrmnt = 69
number ecomm = 70
number eproto = 71
number emultihop = 72
number edotdot = 73
number ebadmsg = 74
number eoverflow = 75
number enotuniq = 76
number ebadfd = 77
number eremchg = 78
number elibacc = 79
number elibbad = 80
number elibscn = 81
number elibmax = 82
number elibexec = 83
number eilseq = 84
number erestart = 85
number estrpipe = 86
number eusers = 87
number enotsock = 88
number edestaddrreq = 89
number emsgsize = 90
number eprototype = 91
number enoprotoopt = 92
number eprotonosupport = 93
number esocktnosupport = 94
number eopnotsupp = 95
number epfnosupport = 96
number eafnosupport = 97
number eaddrinuse = 98
number eaddrnotavail = 99
number enetdown = 100
number enetunreach = 101
number enetreset = 102
number econnaborted = 103
number econnreset = 104
number enobufs = 105
number eisconn = 106
number enotconn = 107
number eshutdown = 108
number etoomanyrefs = 109
number etimedout = 110
number econnrefused = 111
number ehostdown = 112
number ehostunreach = 113
number ealready = 114
number einprogress = 115
number estale = 116
number euclean = 117
number enotnam = 118
number enavail = 119
number eisnam = 120
number eremoteio = 121
number edquot = 122
number enomedium = 123
number emediumtype = 124
number ecanceled = 125
number enokey = 126
number ekeyexpired = 127
number ekeyrevoked = 128
number ekeyrejected = 129
number eownerdead = 130
number enotrecoverable = 131
