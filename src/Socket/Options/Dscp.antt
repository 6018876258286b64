-- ===== src/Socket/Options/Dscp.antt =====
-- The DSCP arithmetic of src/SimpleSocket.cpp: what is set, and what is read back.
use clsocket.Base.{
  ℕ, pos, minus_one, ◌*◌, ◌^◌, ◌<◌, ◌*ℤ◌, to_uint32, true, ◌≡◌, ◌≢◌, none, List, ◌∷◌, arith,
}
use clsocket.Net.{SockOpt, OptValue, OptLen, Call, Env}
use clsocket.Socket.{State, Ends, is_valid_handle}
use clsocket.Socket.Options.{
  shift_left_4, divide_4, times_4, shift_right_4, set_socket_dscp, get_socket_dscp,
}

-- The value that `SetSocketDscp` computes: the code point, two bits up.
pub dscp_to_tos : (x : ℕ) → x < 2 ^ 27 → divide_4 (shift_left_4 (pos x)) ≡ pos (x * 4)
unfolding divide_4 shift_left_4 to_uint32 ◌*ℤ◌
dscp_to_tos x h = ground arith

module _ (env : Env) (s : State) where
  abbrev pub set_tos_trace : ℕ → List Call
  set_tos_trace x =
      Call.setsockopt s.socket SockOpt.ip_tos (OptValue.int_value (pos (x * 4))) ∷ s.trace

  abbrev pub get_tos : Call
  get_tos = Call.getsockopt s.socket SockOpt.ip_tos (OptLen.at_object 0)

  -- `get_socket_dscp` passes getsockopt(2) a length of 0, and if the kernel then writes no value it
  -- returns 0.
  get_socket_dscp_zero :
      (env.reply (get_tos ∷ s.trace)).value ≡ none → Ends (get_socket_dscp env s) λ y s'. y ≡ pos 0
  unfolding get_socket_dscp times_4 shift_right_4 to_uint32 ◌*ℤ◌
  get_socket_dscp_zero nothing = ground arith

module _ (env : Env) (s : State) where
  -- For a code point x below 2 ^ 27 on a valid handle, if the kernel accepts the option, and writes
  -- no value where it is given a length of 0: `set_socket_dscp` succeeds, with one setsockopt(2) of
  -- 4 x, and `get_socket_dscp` afterwards, which gives getsockopt(2) a length of 0, returns 0
  -- whatever x is, with that one call.
  pub set-get_socket_dscp :
      (x : ℕ)
      → x < 2 ^ 27
      → is_valid_handle s.sock ≡ true
      → (env.reply (set_tos_trace env s x)).ret ≢ minus_one
      → (env.reply (get_tos env s ∷ set_tos_trace env s x)).value ≡ none
      → Ends (set_socket_dscp (pos x) env s) λ done s'.
        (done ≡ true)
        × (s'.trace ≡ set_tos_trace env s x)
        × (Ends
            (get_socket_dscp env s')
            λ y s''. (y ≡ pos 0) × (s''.trace ≡ get_tos env s ∷ set_tos_trace env s x))
  unfolding set_socket_dscp get_socket_dscp times_4 shift_right_4 to_uint32 ◌*ℤ◌
  set-get_socket_dscp x h valid ok nothing = ground (arith, dscp_to_tos x h)
