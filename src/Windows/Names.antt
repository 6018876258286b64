-- ===== src/Windows/Names.antt =====
-- How `Connect` of src/ActiveSocket.cpp resolves a name on Windows and on Linux.
use clsocket.Base.{ℕ, ◌==◌, Bool, true, false, ◌≡◌, Option, none, some, ◌∷◌, if◌then◌else◌, arith}
use clsocket.Net.{Call, CString, Env}
use clsocket.Error.Windows.{translate_wsa_error}
use clsocket.Socket.{State, Ends}
use clsocket.Active.{inaddr_none, resolve}
use clsocket.Windows.{LastError, resolve_windows}

module _ (env : Env) (last_error : LastError) (s : State) (name : CString) (port : ℕ) where
  -- Whether gethostbyname(3) gave an address that `Connect` goes on with.
  abbrev is_address : Option ℕ → Bool
  is_address none = false
  is_address (some addr) = if addr == inaddr_none then false else true

  -- What the `Connect` methods do up to the port, as Windows compiles it, has the same result, the
  -- same calls and the same server address as on Linux, where the result is whether
  -- gethostbyname(3) gave an address other than INADDR_NONE; the error is then the same too, and
  -- otherwise it is the translation of what `WSAGetLastError` gives.
  pub resolve_windows-resolve : Ends (resolve name port env s) λ done t.
      Ends (resolve_windows last_error name port env s) λ done' u.
        let r = env.reply (Call.gethostbyname name ∷ s.trace) in
        (done' ≡ done)
        × (done ≡ is_address r.host)
        × (u.trace ≡ t.trace)
        × (u.server_sockaddr ≡ t.server_sockaddr)
        × (u.socket_errno ≡ (
            if done
            then t.socket_errno
            else translate_wsa_error (last_error (Call.gethostbyname name ∷ s.trace))))
  unfolding resolve resolve_windows
  resolve_windows-resolve = ground arith
