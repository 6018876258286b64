-- ===== src/History/Calm.antt =====
-- The handles that the calls of a run open and close, and the option methods of src/SimpleSocket.cpp as
-- steps.
use clsocket.Base.{
  ℕ, ◌+◌, ℤ, minus_one, ◌==ℤ◌, not, ◌&&◌, Bool, Option, none, some, ◌≡◌, List, [], ◌∷◌,
  if◌then◌else◌, arith,
}
use clsocket.Net.{Call, Env, SockOpt, CString}
use clsocket.Socket.{State}
use clsocket.Socket.Options.{
  bind_interface, set_multicast, set_socket_dscp, get_socket_dscp, get_window_size, set_window_size,
  disable_nagle_algoritm, enable_nagle_algoritm, set_receive_timeout, set_send_timeout,
  set_option_reuse_addr, set_option_linger, set_nonblocking, set_blocking,
}
use clsocket.History.{Lands}

-- A call that succeeded.
abbrev succeeded : ℤ → Bool
succeeded ret = not (ret ==ℤ minus_one)

-- How often the calls have opened this handle, and how often they have closed it.
abbrev pub opened : Env → ℤ → List Call → ℕ
opened env watched [] = 0
opened env watched (Call.socket domain type protocol ∷ cs) =
    let ret = (env.reply (Call.socket domain type protocol ∷ cs)).ret in
    (if succeeded ret && ret ==ℤ watched then 1 else 0) + opened env watched cs
opened env watched (Call.accept fd ∷ cs) =
    let ret = (env.reply (Call.accept fd ∷ cs)).ret in
    (if succeeded ret && ret ==ℤ watched then 1 else 0) + opened env watched cs
opened env watched (c ∷ cs) = opened env watched cs

abbrev pub closed : Env → ℤ → List Call → ℕ
closed env watched [] = 0
closed env watched (Call.close fd ∷ cs) =
    (if succeeded (env.reply (Call.close fd ∷ cs)).ret && fd ==ℤ watched then 1 else 0)
    + closed env watched cs
closed env watched (c ∷ cs) = closed env watched cs

abbrev pub Calm : Env → ℤ → State → State → Type 0
Calm env watched s s' =
    (s'.socket ≡ s.socket)
    × (s'.buffer ≡ s.buffer)
    × (s'.buffer_size ≡ s.buffer_size)
    × (opened env watched s'.trace ≡ opened env watched s.trace)
    × (closed env watched s'.trace ≡ closed env watched s.trace)

module _ (env : Env) (watched : ℤ) (s : State) where
  pub set_multicast-Calm :
      (b : Bool) (ttl : ℕ) → Lands (set_multicast b ttl env s) (Calm env watched s)
  unfolding set_multicast
  set_multicast-Calm b ttl = ground arith

  pub set_socket_dscp-Calm : (x : ℤ) → Lands (set_socket_dscp x env s) (Calm env watched s)
  unfolding set_socket_dscp
  set_socket_dscp-Calm x = ground arith

  pub get_socket_dscp-Calm : Lands (get_socket_dscp env s) (Calm env watched s)
  unfolding get_socket_dscp
  get_socket_dscp-Calm = ground arith

  pub get_window_size-Calm :
      (opt : SockOpt) → Lands (get_window_size opt env s) (Calm env watched s)
  unfolding get_window_size
  get_window_size-Calm opt = ground arith

  pub set_window_size-Calm :
      (opt : SockOpt) (n : ℤ) → Lands (set_window_size opt n env s) (Calm env watched s)
  unfolding set_window_size
  set_window_size-Calm opt n = ground arith

  pub disable_nagle_algoritm-Calm : Lands (disable_nagle_algoritm env s) (Calm env watched s)
  unfolding disable_nagle_algoritm
  disable_nagle_algoritm-Calm = ground arith

  pub enable_nagle_algoritm-Calm : Lands (enable_nagle_algoritm env s) (Calm env watched s)
  unfolding enable_nagle_algoritm
  enable_nagle_algoritm-Calm = ground arith

  pub set_receive_timeout-Calm :
      (sec usec : ℤ) → Lands (set_receive_timeout sec usec env s) (Calm env watched s)
  unfolding set_receive_timeout
  set_receive_timeout-Calm sec usec = ground arith

  pub set_send_timeout-Calm :
      (sec usec : ℤ) → Lands (set_send_timeout sec usec env s) (Calm env watched s)
  unfolding set_send_timeout
  set_send_timeout-Calm sec usec = ground arith

  pub set_option_reuse_addr-Calm : Lands (set_option_reuse_addr env s) (Calm env watched s)
  unfolding set_option_reuse_addr
  set_option_reuse_addr-Calm = ground arith

  pub set_option_linger-Calm :
      (b : Bool) (n : ℕ) → Lands (set_option_linger b n env s) (Calm env watched s)
  unfolding set_option_linger
  set_option_linger-Calm b n = ground arith

  pub bind_interface-Calm :
      (text : Option CString) → Lands (bind_interface text env s) (Calm env watched s)
  unfolding bind_interface
  bind_interface-Calm none = ground arith
  bind_interface-Calm (some text) = ground arith

  pub set_nonblocking-Calm : Lands (set_nonblocking env s) (Calm env watched s)
  unfolding set_nonblocking
  set_nonblocking-Calm = ground arith

  pub set_blocking-Calm : Lands (set_blocking env s) (Calm env watched s)
  unfolding set_blocking
  set_blocking-Calm = ground arith
