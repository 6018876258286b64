-- ===== src/Examples/SafetyCases.antt =====
-- The servers of examples/ on kernels on which much fails.
use clsocket.Base.{◌≡◌, refl, ℕ, ℤ, pos, negsuc, List, [], ◌∷◌, replicate, length-replicate, arith}
use clsocket.Error.{is_interrupted, is_success, translate_errno}
use clsocket.Net.{Errno, Call, Reply, Env, Bytes}
use clsocket.Socket.{SocketType, State}
use clsocket.Socket.Lifecycle.{construct}
use clsocket.Socket.Lifecycle.Handle.{fresh}
use clsocket.History.{Lands}
use clsocket.History.Owning.{Kept}
use clsocket.Programs.Counts.{Counts}
use clsocket.Programs.Signals.{Unsignalled}
use clsocket.Programs.EchoServer.{loopback, echo_server}
use clsocket.Programs.Steps.{Spends}
use clsocket.Programs.Listening.{ready_trace}
use clsocket.Programs.EchoServer.Stuck.{echo_server_stuck}
use clsocket.Programs.EchoServer.Safety.{echo_server-Kept}
use clsocket.Programs.RecvAsync.{create_tcp_echo_server}
use clsocket.Programs.RecvAsync.Server.{thread_data}
use clsocket.Programs.RecvAsync.Safety.{create_tcp_echo_server-Kept}
use clsocket.Examples.{connected, start, answering, quiet, returning, failing}

-- As many bytes as are asked for.
abbrev filled : ℤ → Bytes
filled (pos n) = replicate n 65
filled (negsuc n) = []

-- The sockets are made, a read fills what it is given, a send is reset, and no handle can be closed.
abbrev stubborn_reply : List Call → Reply
stubborn_reply (Call.socket domain type protocol ∷ cs) = returning (pos 5)
stubborn_reply (Call.accept fd ∷ cs) = returning (pos 7)
stubborn_reply (Call.recv fd offset max flags ∷ cs) = record quiet { ret = max; bytes = filled max }
stubborn_reply (Call.send fd bytes ∷ cs) = failing Errno.econnreset
stubborn_reply (Call.close fd ∷ cs) = failing Errno.econnreset
stubborn_reply _ = quiet

abbrev stubborn : Env
stubborn = answering stubborn_reply

stubborn-Counts : Counts stubborn
stubborn-Counts = record {
  modest = record {
    recv_fits = λ fd offset n flags cs. omega (arith, length-replicate {0} {A = ℕ} n 65);
    recvfrom_fits = λ fd n cs. omega arith;
  };
  recv_counted = λ fd offset n flags cs. omega arith;
  recvfrom_counted = λ fd n cs. omega arith;
}

stubborn-Unsignalled : Unsignalled stubborn
stubborn-Unsignalled = record {
  recv_calmly = λ fd offset max flags cs e h. h;
  getpeername_calmly = λ fd cs e h. h;
  getsockname_calmly = λ fd cs e h. h;
}

abbrev new_object : State
new_object = fresh start connected SocketType.tcp

new_object-Kept : Kept stubborn (pos 7) 0 new_object
unfolding construct
new_object-Kept = (tt, omega arith)

echo_server-Kept_example :
    Lands (echo_server 9 1 0 connected stubborn new_object) (Kept stubborn (pos 7) 0)
echo_server-Kept_example =
    echo_server-Kept stubborn stubborn-Unsignalled stubborn-Counts (pos 7) 0 1 0 connected 9
      new_object new_object-Kept

create_tcp_echo_server-Kept_example :
    Lands
      (create_tcp_echo_server 9 1 0 connected (thread_data loopback 6789 4 11) stubborn new_object)
      (Kept stubborn (pos 7) 0)
create_tcp_echo_server-Kept_example =
    create_tcp_echo_server-Kept stubborn stubborn-Unsignalled stubborn-Counts (pos 7) 1 0 4 loopback
      6789 11 0 9 connected new_object new_object-Kept

-- The process has no descriptor left for a connection.
abbrev full_reply : List Call → Reply
full_reply (Call.socket domain type protocol ∷ cs) = returning (pos 5)
full_reply (Call.accept fd ∷ cs) = failing Errno.emfile
full_reply _ = quiet

abbrev full : Env
full = answering full_reply

echo_server_stuck_example : Spends (echo_server 3 1 0 connected full new_object) λ t.
    t.trace
    ≡ Call.accept (pos 5)
      ∷ Call.accept (pos 5)
      ∷ Call.accept (pos 5)
      ∷ ready_trace full new_object (pos 5) loopback 6789
unfolding is_interrupted is_success translate_errno construct
echo_server_stuck_example =
    echo_server_stuck full (pos 5) Errno.emfile
      (record {
        fails = λ cs. refl;
        reason = λ cs. refl;
        nobody = λ cs. refl;
        is_calm = refl;
        is_error = refl;
      })
      0 0 connected 3 new_object refl
      (record { created = refl; is_open = λ e. cc; bound = λ e. cc; listening = λ e. cc })
