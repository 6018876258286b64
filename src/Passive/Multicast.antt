-- ===== src/Passive/Multicast.antt =====
-- `BindMulticast` of src/PassiveSocket.cpp: its result and calls, and the order of its timer calls.
use clsocket.Base.{
  [], suc, ◌==◌, ℕ, pos, ◌+◌, ◌*◌, ◌==ℤ◌, ◌+ℤ◌, ◌-ℤ◌, ◌*ℤ◌, to_uint32, ◌≡◌, refl, Option, none,
  some, List, ◌∷◌, if◌then◌else◌, arith,
}
use clsocket.Net.{Family, Timeval, SockAddr, SockOpt, OptValue, Call, CString, Env}
use clsocket.Timer.{
  zero_time, initialize, set_start_time, set_end_time, calc_total_usec, get_micro_seconds,
}
use clsocket.Timer.Laws.{at_time}
use clsocket.Socket.{State, Ends, returned}
use clsocket.Socket.Steps.{Ends-map}
use clsocket.Socket.Lifecycle.{close}
use clsocket.Active.{inaddr_none}
use clsocket.Passive.{inaddr_any, local_address, bind_multicast}

-- The address that is bound for the text of an interface.
abbrev pub bound_address : Env → Option CString → ℕ
bound_address env none = env.htonl inaddr_any
bound_address env (some []) = env.htonl inaddr_any
bound_address env (some (c ∷ text)) =
    if env.inet_addr (c ∷ text) == inaddr_none then 0 else env.inet_addr (c ∷ text)

pub local_address_lem :
    (env : Env) (s : State) (interface : Option CString)
    → local_address interface env s ≡ returned (bound_address env interface) s
unfolding local_address
local_address_lem env s none = refl
local_address_lem env s (some []) = refl
local_address_lem env s (some (c ∷ text)) = refl

-- Elapsed time with the end at zero: the start, counted backwards.
elapsed_backwards :
    (sec usec : ℕ)
    → get_micro_seconds (record { start_time = at_time sec usec; end_time = zero_time })
      ≡ to_uint32 (pos 0 -ℤ pos (sec * 1000000 + usec))
unfolding get_micro_seconds calc_total_usec to_uint32 ◌+ℤ◌ ◌-ℤ◌ ◌*ℤ◌
elapsed_backwards sec usec = ground arith

module _ (env : Env) (s : State) (interface : Option CString) (group : CString) (port : ℕ) where
  abbrev pub group_address : SockAddr
  group_address = record {
    sin_family = Family.af_inet;
    sin_port = env.htons port;
    s_addr = bound_address env interface;
  }

  abbrev pub bind_trace : List Call
  bind_trace = Call.bind s.socket group_address ∷ s.trace

  abbrev pub join_trace : List Call
  join_trace =
      Call.setsockopt s.socket SockOpt.ip_add_membership
        (OptValue.membership_value (env.inet_addr group) (bound_address env interface))
      ∷ bind_trace

  -- The reading of the clock that `SetStartTime` takes.
  abbrev pub started : Timeval
  started =
      if (env.reply bind_trace).ret ==ℤ pos 0 then env.clock (suc s.ticks) else env.clock s.ticks

  cleared_timer :
      Ends
        (bind_multicast interface group port env s)
        λ done s'. s'.timer ≡ record { start_time = started; end_time = zero_time }
  unfolding bind_multicast close initialize set_start_time set_end_time
  cleared_timer = ground (arith, local_address_lem env s interface)

  -- After `bind_multicast` the timer's reading in microseconds is the time of day of its start,
  -- negated and wrapped to 32 bits, and not the time that the method took.
  bind_multicast-elapsed :
      (sec usec : ℕ)
      → started ≡ at_time sec usec
      → Ends
          (bind_multicast interface group port env s)
          λ done s'. get_micro_seconds s'.timer ≡ to_uint32 (pos 0 -ℤ pos (sec * 1000000 + usec))
  bind_multicast-elapsed sec usec e =
      Ends-map (bind_multicast interface group port env s) cleared_timer
        λ done s' shape. rw shape (rw e (elapsed_backwards sec usec))
