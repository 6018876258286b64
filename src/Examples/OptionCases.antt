-- ===== src/Examples/OptionCases.antt =====
-- The modes of a handle, and names on Windows, at concrete inputs.
use clsocket.Base.{pos, true, ◌≡◌, refl, [], ◌∷◌}
use clsocket.Net.{Call, Env}
use clsocket.Error.Windows.{WsaError}
use clsocket.Socket.{Ends, ◌>>◌}
use clsocket.Socket.Options.{set_blocking, set_nonblocking}
use clsocket.Socket.Options.Blocking.{set_nonblocking-set_blocking}
use clsocket.Active.{resolve}
use clsocket.Windows.{LastError, resolve_windows}
use clsocket.Windows.Names.{resolve_windows-resolve}
use clsocket.Examples.{start, scripted, quiet, returning}

-- The flags are 2 (O_RDWR), and 2050 with O_NONBLOCK.
abbrev keeps_flags : Env
keeps_flags = scripted (returning (pos 2) ∷ quiet ∷ returning (pos 2050) ∷ quiet ∷ [])

set_nonblocking-set_blocking_example :
    Ends ((set_nonblocking >> set_blocking) keeps_flags start) λ done t.
      (t.trace
        ≡ Call.set_flags (pos 5) 2
          ∷ Call.get_flags (pos 5)
          ∷ Call.set_flags (pos 5) 2050
          ∷ Call.get_flags (pos 5)
          ∷ [])
      × (done ≡ true)
      × (t.is_blocking ≡ done)
set_nonblocking-set_blocking_example =
    set_nonblocking-set_blocking keeps_flags start 2 refl refl refl

-- WSAHOST_NOT_FOUND is 11001, and stays what the last error is.
abbrev unknown_host : LastError
unknown_host cs = WsaError.other 11001

abbrev unnamed : Env
unnamed = scripted (record quiet { host_not_found = true } ∷ [])

resolve_windows-resolve_example :
    Ends (resolve (97 ∷ []) 80 unnamed start) λ done t.
      Ends (resolve_windows unknown_host (97 ∷ []) 80 unnamed start) λ done' u. done' ≡ done
unfolding resolve resolve_windows
resolve_windows-resolve_example =
    (resolve_windows-resolve unnamed unknown_host start (97 ∷ []) 80).0
