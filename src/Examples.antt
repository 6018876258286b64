-- ===== src/Examples.antt =====
-- Concrete objects and environments, at which the theorems are applied and the methods are run.
pub mod SendCases
pub mod ReceiveCases
pub mod LifecycleCases
pub mod ActiveCases
pub mod PassiveCases
pub mod HistoryCases
pub mod RetryCases
pub mod AccessCases
pub mod ProgramCases
pub mod WorldCases
pub mod DatagramCases
pub mod DayTimeCases
pub mod SafetyCases
pub mod OptionCases
pub mod SessionCases
use clsocket.Base.{
  ℕ, zero, suc, ◌-◌, ℤ, pos, minus_one, true, false, none, some, List, [], ◌∷◌, length,
}
use clsocket.Net.{Errno, Family, SockAddr, Call, Reply, Env, Bytes}
use clsocket.Error.{SocketError}
use clsocket.Timer.{zero_time}
use clsocket.Timer.Laws.{at_time}
use clsocket.Socket.{SocketType, SimpleSocket, State}

-- A reply that succeeds and writes nothing.
abbrev pub quiet : Reply
quiet = record {
  ret = pos 0;
  errno = none;
  value = none;
  pending = Errno.exit_success;
  bytes = [];
  addr = none;
  host = none;
  host_not_found = false;
  readable = false;
  writable = false;
}

abbrev pub returning : ℤ → Reply
returning n = record quiet { ret = n }

abbrev pub failing : Errno → Reply
failing e = record quiet { ret = minus_one; errno = some e }

abbrev pub nth : List Reply → ℕ → Reply
nth [] i = quiet
nth (r ∷ rs) zero = r
nth (r ∷ rs) (suc i) = nth rs i

abbrev pub answering : (List Call → Reply) → Env
answering reply = record {
  reply = reply;
  clock = λ k. at_time k 0;
  inet_addr = λ text. 0xffff_ffff;
  htons = λ n. n;
  htonl = λ n. n;
  ntohs = λ n. n;
  ntohl = λ n. n;
  inet_ntoa = λ n. n ∷ [];
  o_nonblock = 2048;
  fd_setsize = 1024;
}

abbrev pub nowhere : SockAddr
nowhere = record { sin_family = Family.af_inet; sin_port = 0; s_addr = 0 }

-- The environment that answers the first calls by this list, and the later ones quietly.
abbrev pub scripted : List Reply → Env
scripted rs = answering (λ cs. nth rs (length cs - 1))

-- A connected TCP object on descriptor 5.
abbrev pub connected : SimpleSocket
connected = record {
  socket = pos 5;
  socket_errno = SocketError.success;
  buffer = none;
  buffer_size = pos 0;
  socket_domain = Family.af_inet;
  socket_type = SocketType.tcp;
  bytes_received = minus_one;
  bytes_sent = minus_one;
  flags = 0;
  is_blocking = true;
  is_multicast = false;
  connect_timeout = at_time 1 0;
  recv_timeout = zero_time;
  send_timeout = zero_time;
  server_sockaddr = nowhere;
  client_sockaddr = nowhere;
  multicast_group = nowhere;
  linger = record { l_onoff = 0; l_linger = 0 };
  timer = record { start_time = zero_time; end_time = zero_time };
}

abbrev pub running : SimpleSocket → State
running s = record {
  sock = s;
  errno = Errno.exit_success;
  caller_buffer = [];
  trace = [];
  ticks = 0;
}

abbrev pub start : State
start = running connected

abbrev pub datagram : State
datagram = running (record connected { socket_type = SocketType.udp })

abbrev pub hello : Bytes
hello = 104 ∷ 101 ∷ 108 ∷ 108 ∷ 111 ∷ []
