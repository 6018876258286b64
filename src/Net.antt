-- ===== src/Net.antt =====
-- What the library sees of the platform (src/Host.h, the system's headers and the kernel): the
-- values of errno that the source names, the system calls that the source makes with their
-- arguments, the replies, and the environment, which is a parameter of every operation.
use clsocket.Base.{ℕ, ℤ, Bool, Option, List}

-- The values of errno that `TranslateSocketError` names; `other` is any value that it does not.
pub data Errno : Type 0 where
  exit_success enotconn enotsock ebadf eacces eafnosupport emfile enfile enobufs enomem : Errno
  eprotonosupport epipe eopnotsupp econnrefused etimedout einprogress ewouldblock eintr : Errno
  econnaborted einval eproto eperm efault econnreset enoprotoopt eaddrinuse : Errno
  other : ℕ → Errno

-- The address families of the source; `af_unspec` is the zero that `memset` leaves.
pub data Family : Type 0 where
  af_unspec af_inet af_inet6 af_packet : Family

-- `CShutdownMode`.
pub data ShutdownMode : Type 0 where
  receives sends both : ShutdownMode

-- `struct timeval`.
pub record Timeval : Type 0 where
  pub tv_sec : ℤ
  pub tv_usec : ℤ

-- `struct sockaddr_in`.
pub record SockAddr : Type 0 where
  pub sin_family : Family
  pub sin_port : ℕ
  pub s_addr : ℕ

-- The level and the name of a socket option, as the source spells them.
pub data SockOpt : Type 0 where
  ip_multicast_if ip_multicast_ttl ip_tos ip_add_membership : SockOpt
  tcp_nodelay tcp_ip_tos : SockOpt
  so_rcvbuf so_sndbuf so_rcvtimeo so_sndtimeo so_reuseaddr so_linger so_error : SockOpt

-- The object behind the option pointer of `setsockopt`.
pub data OptValue : Type 0 where
  int_value : ℤ → OptValue
  time_value : Timeval → OptValue
  linger_value : ℕ → ℕ → OptValue
  membership_value : ℕ → ℕ → OptValue

-- The last argument of `getsockopt`: a pointer to a length, or an integer that is cast to a pointer.
pub data OptLen : Type 0 where
  at_object : ℕ → OptLen
  cast_integer : ℕ → OptLen

-- A C string, and a block of bytes.
abbrev pub CString : Type 0
CString = List ℕ

abbrev pub Bytes : Type 0
Bytes = List ℕ

-- One system call, with the arguments that the source passes.
pub data Call : Type 0 where
  socket : Family → ℕ → ℕ → Call
  setsockopt : ℤ → SockOpt → OptValue → Call
  getsockopt : ℤ → SockOpt → OptLen → Call
  send : ℤ → Bytes → Call
  sendto : ℤ → Bytes → SockAddr → Call
  writev : ℤ → List Bytes → Call
  recv : ℤ → ℤ → ℤ → ℕ → Call
  recvfrom : ℤ → ℤ → Call
  close : ℤ → Call
  shutdown : ℤ → ShutdownMode → Call
  get_flags : ℤ → Call
  set_flags : ℤ → ℕ → Call
  lseek : ℤ → ℤ → Call
  read : ℤ → ℤ → Call
  send_block : ℤ → Bytes → Call
  select : ℤ → Option Timeval → Call
  gethostbyname : CString → Call
  connect : ℤ → SockAddr → Call
  bind : ℤ → SockAddr → Call
  listen : ℤ → ℤ → Call
  accept : ℤ → Call
  getpeername : ℤ → Call
  getsockname : ℤ → Call
  ioctlsocket : ℤ → ℕ → Call
  wsa_startup : ℕ → ℕ → Call

-- What a call hands back: its return value, the value that it gives to errno (`none`: it leaves
-- errno alone), and what it writes through its out-pointers (`none`: nothing is written).
pub record Reply : Type 0 where
  pub ret : ℤ
  pub errno : Option Errno
  pub value : Option ℤ
  pub pending : Errno
  pub bytes : Bytes
  pub addr : Option SockAddr
  pub host : Option ℕ
  pub host_not_found : Bool
  pub readable : Bool
  pub writable : Bool

-- The environment answers each call as it chooses, knowing all the calls up to it, newest first.
-- The clock gives the time of each reading; the conversions are the C library's.
pub record Env : Type 0 where
  pub reply : List Call → Reply
  pub clock : ℕ → Timeval
  pub inet_addr : CString → ℕ
  pub htons : ℕ → ℕ
  pub htonl : ℕ → ℕ
  pub ntohs : ℕ → ℕ
  pub ntohl : ℕ → ℕ
  pub inet_ntoa : ℕ → CString
  pub o_nonblock : ℕ
  pub fd_setsize : ℕ
