-- ===== src/Examples/SessionCases.antt =====
-- The two programs of examples/RecvAsync.cpp at concrete replies: the packet comes in two chunks, and the
-- answer in one, which is late.
use clsocket.Base.{pos, true, ◌≡◌, refl, none, some, List, [], ◌∷◌, map, length, arith}
use clsocket.Net.{Errno, Call, Reply, Bytes}
use clsocket.Error.{is_interrupted, translate_errno}
use clsocket.Socket.{SocketType, State, Ends}
use clsocket.Socket.Lifecycle.{construct}
use clsocket.Socket.Lifecycle.Handle.{fresh}
use clsocket.Programs.EchoServer.{loopback}
use clsocket.Programs.RecvAsync.{test_packet, create_tcp_echo_server, async_client}
use clsocket.Programs.RecvAsync.Server.{thread_data}
use clsocket.Programs.RecvAsync.Stream.{written, said}
use clsocket.Programs.Listening.{Listens, ready_trace}
use clsocket.Programs.RecvAsync.Thread.{Client, served, create_tcp_echo_server-Chunks}
use clsocket.Programs.RecvAsync.Together.{async_client-create_tcp_echo_server}
use clsocket.Examples.{connected, start, answering, quiet, returning, failing}

abbrev head_chunk : Bytes
head_chunk = 84 ∷ 101 ∷ 115 ∷ 116 ∷ 32 ∷ 80 ∷ 97 ∷ 99 ∷ []

abbrev tail_chunk : Bytes
tail_chunk = 107 ∷ 101 ∷ 116 ∷ []

-- The listener gets descriptor 5 and its client 7; the first recv(2) brings eight bytes, the next three.
abbrev server_reply : List Call → Reply
server_reply (Call.socket domain type protocol ∷ cs) = returning (pos 5)
server_reply (Call.accept fd ∷ cs) = returning (pos 7)
server_reply (Call.recv fd offset n flags ∷ Call.getsockname g ∷ cs) = record quiet {
  ret = pos 8;
  bytes = head_chunk;
}
server_reply (Call.recv fd offset n flags ∷ cs) = record quiet { ret = pos 3; bytes = tail_chunk }
server_reply (Call.send fd bytes ∷ cs) = returning (pos (length bytes))
server_reply _ = quiet

-- The connection is in progress at first, and the first recv(2) has nothing yet.
abbrev client_reply : List Call → Reply
client_reply (Call.socket domain type protocol ∷ cs) = returning (pos 3)
client_reply (Call.gethostbyname name ∷ cs) = record quiet { host = some 0x7f00_0001 }
client_reply (Call.connect fd server ∷ cs) = failing Errno.einprogress
client_reply (Call.send fd bytes ∷ cs) = returning (pos 11)
client_reply (Call.select fd limit ∷ cs) = record quiet {
  ret = pos 1;
  readable = true;
  writable = true;
}
client_reply (Call.recv fd offset n flags ∷ Call.getsockopt g opt len ∷ cs) =
    failing Errno.ewouldblock
client_reply (Call.recv fd offset n flags ∷ cs) = record quiet { ret = pos 11; bytes = test_packet }
client_reply _ = quiet

abbrev new_object : State
new_object = fresh start connected SocketType.tcp

listens : Listens (answering server_reply) new_object (pos 5) loopback 6789
listens = record { created = refl; is_open = λ e. cc; bound = λ e. cc; listening = λ e. cc }

abbrev ready : List Call
ready = ready_trace (answering server_reply) new_object (pos 5) loopback 6789

packet_comes :
    Client (answering server_reply) 8 (pos 5) (pos 7) (head_chunk ∷ tail_chunk ∷ []) ready
unfolding is_interrupted translate_errno construct
packet_comes = record {
  connected = refl;
  open_handle = λ e. cc;
  accepted_calmly = refl;
  named_calmly = refl;
  sends = (
    record {
      arrival = record {
        open_handle = λ e. cc;
        some_bytes = omega arith;
        fits = omega arith;
        delivered = refl;
        counted = refl;
        received_calmly = refl;
      };
      sent_calmly = refl;
    },
    (
      record {
        arrival = record {
          open_handle = λ e. cc;
          some_bytes = omega arith;
          fits = omega arith;
          delivered = refl;
          counted = refl;
          received_calmly = refl;
        };
        sent_calmly = refl;
      },
      tt,
    ),
  );
  closes = λ e. cc;
  listener_closes = λ e. cc;
}

create_tcp_echo_server-Chunks_example :
    Ends
      (create_tcp_echo_server 3 1 0 connected
        (thread_data loopback 6789 8 11)
        (answering server_reply)
        new_object)
      λ z w.
        w.trace ≡ Call.close (pos 5) ∷ served 8 (pos 5) (pos 7) (head_chunk ∷ tail_chunk ∷ []) ready
unfolding construct
create_tcp_echo_server-Chunks_example =
    create_tcp_echo_server-Chunks (answering server_reply) 0 0 8 loopback 6789
      (head_chunk ∷ tail_chunk ∷ []) connected (pos 5) (pos 7) new_object refl listens packet_comes

async_client-create_tcp_echo_server_example :
    (Ends
      (create_tcp_echo_server 3 1 0 connected
        (thread_data loopback 6789 8 11)
        (answering server_reply)
        new_object)
      λ z w. written (answering server_reply) w.trace ≡ test_packet)
    × (Ends
        (async_client 3 1 (answering client_reply) new_object)
        λ blocks w. said blocks ≡ map some test_packet)
unfolding is_interrupted translate_errno construct
async_client-create_tcp_echo_server_example =
    async_client-create_tcp_echo_server (answering server_reply) (answering client_reply) 8
      new_object new_object (pos 5) (pos 7) (pos 3) 0 0x7f00_0001 0 0 connected
      (head_chunk ∷ tail_chunk ∷ []) (none ∷ some test_packet ∷ []) (refl, refl, refl, refl)
      (refl, refl, refl, refl)
      (record {
        listens = listens;
        connecting = record {
          created = refl;
          is_open = λ e. cc;
          settable = refl;
          flags_read = refl;
          flags_written = refl;
          resolved = refl;
          is_address = omega arith;
          in_progress = refl;
          progress_errno = refl;
          ready = refl;
          is_writable = refl;
          option_read = refl;
          no_error = refl;
          peer_calmly = refl;
          own_calmly = refl;
        };
        packet_comes = packet_comes;
        packet_carried = refl;
        packet_leaves = refl;
        answer_leaves = (refl, (refl, tt));
        wakes = record {
          leaves = λ e. cc;
          leaves_calmly = refl;
          settable = refl;
          woken = refl;
          readable = refl;
          option_read = refl;
          no_error = refl;
        };
        answer_comes = (
          record { fails = refl; no_bytes = refl; fails_calmly = λ e h. refl },
          (
            record {
              open_handle = λ e. cc;
              some_bytes = omega arith;
              fits = omega arith;
              delivered = refl;
              counted = refl;
              received_calmly = refl;
            },
            tt,
          ),
        );
        answer_carried = refl;
      })
