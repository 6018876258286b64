-- ===== src/Examples/ProgramCases.antt =====
-- The programs of examples/ at concrete inputs.
use clsocket.Base.{
  ℕ, ℤ, pos, minus_one, ◌≡◌, ◌≢◌, ◌≤◌, replicate, length-replicate, refl, sym, ap, List, [], ◌∷◌,
  length, arith,
}
use clsocket.Net.{Errno, Call, Reply, Env, Bytes}
use clsocket.Error.{is_interrupted, translate_errno}
use clsocket.Socket.{SocketType, fault}
use clsocket.Programs.Steps.{Spends}
use clsocket.Programs.Chunk.{Arrival}
use clsocket.Programs.EchoServer.Session.{Visit}
use clsocket.Programs.EchoServer.Service.{Guest, service, sent_to}
use clsocket.Programs.RecvAsync.{test_packet, echo_loop, client_loop}
use clsocket.Programs.RecvAsync.Server.{thread_data}
use clsocket.Programs.RecvAsync.Stuck.{echo_loop_stuck}
use clsocket.Programs.RecvAsync.Client.{client_loop_overflow}
use clsocket.Passive.Retry.{waited}
use clsocket.Programs.EchoServer.{loopback, echo_server}
use clsocket.Programs.Listening.{ready_trace}
use clsocket.Programs.EchoServer.Main.{echo_server_refines}
use clsocket.Socket.Lifecycle.{construct}
use clsocket.Socket.Lifecycle.Handle.{fresh}
use clsocket.Examples.{connected, start, answering, scripted, quiet, returning, failing, hello}

-- socket(2) gives descriptor 5, accept(2) gives 7, each recv(2) brings five bytes, and each
-- send(2) takes all.
abbrev greeting_reply : List Call → Reply
greeting_reply (Call.socket domain type protocol ∷ cs) = returning (pos 5)
greeting_reply (Call.accept fd ∷ cs) = returning (pos 7)
greeting_reply (Call.recv fd offset n flags ∷ cs) = record quiet { ret = pos 5; bytes = hello }
greeting_reply (Call.send fd bytes ∷ cs) = returning (pos (length bytes))
greeting_reply _ = quiet

abbrev greeting : Env
greeting = answering greeting_reply

abbrev guests : List Guest
guests = (pos 7, hello) ∷ (pos 7, hello) ∷ []

greeting-Arrival :
    (max : ℕ) (fd : ℤ) (cs : List Call)
    → fd ≢ minus_one
    → 5 ≤ max
    → Arrival greeting max fd hello cs
greeting-Arrival max fd cs h fits = record {
  open_handle = h;
  some_bytes = omega arith;
  fits = fits;
  delivered = refl;
  counted = refl;
  received_calmly = refl;
}

greeting-Visit : (cs : List Call) → Visit greeting (pos 5) (pos 7) hello cs
unfolding is_interrupted translate_errno
greeting-Visit cs = record {
  connected = refl;
  accepted_calmly = refl;
  named_calmly = refl;
  exchange = record {
    chunk = record {
      arrival = greeting-Arrival 4096 (pos 7) _ (λ e. cc) (omega arith);
      sent_calmly = refl;
    };
    closes = λ e. cc;
  };
}

abbrev ready : List Call
ready = ready_trace greeting (fresh start connected SocketType.tcp) (pos 5) loopback 6789

echo_server_refines_example :
    Spends (echo_server 2 1 0 connected greeting (fresh start connected SocketType.tcp)) λ s'.
      (s'.trace ≡ service (pos 5) guests ready)
      × (sent_to greeting s'.trace ≡ (pos 7, hello) ∷ (pos 7, hello) ∷ [])
unfolding construct
echo_server_refines_example =
    echo_server_refines greeting (fresh start connected SocketType.tcp) (pos 5) 0 0 connected guests
      refl (record { created = refl; is_open = λ e. cc; bound = λ e. cc; listening = λ e. cc })
      (greeting-Visit _, (greeting-Visit _, tt)) (refl, (refl, tt))

echo_loop_stuck_example :
    Spends
      (echo_loop 4 1 0 (thread_data [] 6789 8 10) (pos 5) (scripted []) start)
      λ s'. s'.trace ≡ waited (Call.recv (pos 5) (pos 0) (pos 8) 0) 4 []
unfolding is_interrupted translate_errno
echo_loop_stuck_example =
    echo_loop_stuck (scripted []) 0 0 8 [] 6789 4 5 10 start (omega arith)
      (record { ends_of_file = λ cs. refl; brings_nothing = λ cs. refl; is_calm = λ cs. refl }) refl
      tt refl refl

-- The first recv(2) would block, and the next one brings the whole packet.
abbrev late_reply : List Call → Reply
late_reply (Call.recv fd offset n flags ∷ []) = failing Errno.ewouldblock
late_reply (Call.recv fd offset n flags ∷ cs) = record quiet { ret = pos 11; bytes = test_packet }
late_reply _ = quiet

abbrev late : Env
late = answering late_reply

-- The first recv(2) brings 1025 bytes.
abbrev long_chunk : Bytes
long_chunk = replicate 1025 0

length_long : length long_chunk ≡ 1025
length_long = length-replicate {A = ℕ} 1025 0

abbrev flooding_reply : List Call → Reply
flooding_reply cs = record quiet { ret = pos 1025; bytes = long_chunk }

client_loop_overflow_example : client_loop 1 1 0 [] (answering flooding_reply) start ≡ fault
unfolding is_interrupted translate_errno
client_loop_overflow_example =
    client_loop_overflow (answering flooding_reply) 0 0 0 [] long_chunk start (omega arith)
      ((tt, refl, refl, refl), refl)
      (record {
        open_handle = λ e. cc;
        some_bytes = omega (arith, length_long);
        fits = omega (arith, length_long);
        delivered = refl;
        counted = ap pos (sym (length_long));
        received_calmly = refl;
      })
      (omega (arith, length_long))
