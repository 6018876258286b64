-- ===== src/Socket/Options/Blocking.antt =====
-- `SetBlocking` and `SetNonblocking` of src/SimpleSocket.cpp: the flags that they write.
use Prim.Native.Nat.{bit_and, bit_or}
use clsocket.Base.{ℕ, pos, ◌==ℤ◌, ◌-◌, true, false, ◌≡◌, List, ◌∷◌, if◌then◌else◌, arith}
use clsocket.Net.{Call, Env}
use clsocket.Socket.{State, Ends, ◌>>◌}
use clsocket.Socket.Options.Bits.{clear_bits-bit_or}
use clsocket.Socket.Options.{clear_bits, set_blocking, set_nonblocking}

clear_bits_back : (a m : ℕ) → clear_bits (bit_or a m) m ≡ a - bit_and a m
unfolding clear_bits
clear_bits_back a m = clear_bits-bit_or a m

module _ (env : Env) (s : State) where
  abbrev pub flags_trace : List Call
  flags_trace = Call.get_flags s.socket ∷ s.trace

  abbrev pub written_trace : ℕ → List Call
  written_trace flags = Call.set_flags s.socket flags ∷ flags_trace

  -- When F_GETFL gives flags, `set_blocking` writes them back without the bits of O_NONBLOCK and
  -- `set_nonblocking` with them; each is true exactly if F_SETFL gives 0, and marks the object as
  -- blocking or not exactly then.
  set_blocking_lem :
      (cur : ℕ)
      → (env.reply flags_trace).ret ≡ pos cur
      → let cs = written_trace (cur - bit_and cur env.o_nonblock) in
        let ds = written_trace (bit_or cur env.o_nonblock) in
        (Ends (set_blocking env s) λ done s'.
          (s'.trace ≡ cs)
          × (done ≡ ((env.reply cs).ret ==ℤ pos 0))
          × (s'.is_blocking ≡ (if done then true else s.is_blocking)))
        × (Ends (set_nonblocking env s) λ done s'.
            (s'.trace ≡ ds)
            × (done ≡ ((env.reply ds).ret ==ℤ pos 0))
            × (s'.is_blocking ≡ (if done then false else s.is_blocking)))
  unfolding set_blocking set_nonblocking clear_bits
  set_blocking_lem cur e = ground arith

  abbrev pub read_back : ℕ → List Call
  read_back cur = Call.get_flags s.socket ∷ written_trace (bit_or cur env.o_nonblock)

  abbrev pub put_back : ℕ → List Call
  put_back cur = Call.set_flags s.socket (cur - bit_and cur env.o_nonblock) ∷ read_back cur

  -- When F_GETFL gives flags, F_SETFL takes them with O_NONBLOCK, and F_GETFL then gives back what
  -- was set, `set_nonblocking` followed by `set_blocking` makes these three calls and one more,
  -- which sets the flags as they were at first without the bits of O_NONBLOCK; the second method is
  -- true exactly if that call gives 0, and marks the object as blocking exactly then.
  pub set_nonblocking-set_blocking :
      (cur : ℕ)
      → (env.reply flags_trace).ret ≡ pos cur
      → (env.reply (written_trace (bit_or cur env.o_nonblock))).ret ≡ pos 0
      → (env.reply (read_back cur)).ret ≡ pos (bit_or cur env.o_nonblock)
      → Ends ((set_nonblocking >> set_blocking) env s) λ done t.
        (t.trace ≡ put_back cur)
        × (done ≡ ((env.reply (put_back cur)).ret ==ℤ pos 0))
        × (t.is_blocking ≡ done)
  unfolding set_blocking set_nonblocking
  set_nonblocking-set_blocking cur e w r =
      let flags : clear_bits (bit_or cur env.o_nonblock) env.o_nonblock
          ≡ cur - bit_and cur env.o_nonblock =
        clear_bits_back cur env.o_nonblock in
      ground (arith, e, w, r, flags)
