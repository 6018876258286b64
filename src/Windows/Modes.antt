-- ===== src/Windows/Modes.antt =====
-- `SetNonblocking`, `SetBlocking` and `Initialize` of src/SimpleSocket.cpp as Windows compiles them.
use clsocket.Base.{pos, ◌==ℤ◌, true, false, ◌≡◌, List, ◌∷◌, if◌then◌else◌, arith}
use clsocket.Net.{Call, Env}
use clsocket.Error.Windows.{translate_wsa_error}
use clsocket.Socket.{State, Ends, socket_type_value, is_valid_handle}
use clsocket.Windows.{LastError, initialize_windows, set_nonblocking_windows, set_blocking_windows}

module _ (env : Env) (last_error : LastError) (s : State) where
  abbrev pub turned_off : List Call
  turned_off = Call.ioctlsocket s.socket 1 ∷ s.trace

  abbrev pub turned_on : List Call
  turned_on = Call.ioctlsocket s.socket 0 ∷ s.trace

  pub modes_windows :
      (Ends (set_nonblocking_windows last_error env s) λ done t.
        (t.trace ≡ turned_off)
        × (done ≡ ((env.reply turned_off).ret ==ℤ pos 0))
        × (t.is_blocking ≡ (if done then false else s.is_blocking))
        × (t.socket_errno
            ≡ (if done then s.socket_errno else translate_wsa_error (last_error turned_off))))
      × (Ends (set_blocking_windows env s) λ done t.
          (t.trace ≡ turned_on)
          × (done ≡ ((env.reply turned_on).ret ==ℤ pos 0))
          × (t.is_blocking ≡ (if done then true else s.is_blocking))
          × (t.socket_errno ≡ s.socket_errno))
  unfolding set_nonblocking_windows set_blocking_windows
  modes_windows = ground arith

  -- `Initialize` starts Winsock first, and then makes the socket as on Linux.
  initialize_windows_lem :
      let cs =
        Call.socket s.socket_domain (socket_type_value s.socket_type) 0
        ∷ Call.wsa_startup 2 0
        ∷ s.trace in
      Ends (initialize_windows last_error env s) λ done t.
        (t.trace ≡ cs)
        × (t.socket ≡ (env.reply cs).ret)
        × (done ≡ is_valid_handle t.sock)
        × (t.socket_errno ≡ translate_wsa_error (last_error cs))
  unfolding initialize_windows
  initialize_windows_lem = ground arith
