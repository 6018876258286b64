-- ===== src/Examples/DatagramCases.antt =====
-- Properties of the methods of UDP objects of src/, at concrete inputs.
use clsocket.Base.{ℕ, pos, ◌≡◌, refl, false, none, some, List, [], ◌∷◌, replicate, arith}
use clsocket.Net.{Family, SockAddr, Call, Reply, Env}
use clsocket.Error.{is_interrupted, translate_errno}
use clsocket.Socket.{State, Ends}
use clsocket.Socket.Receive.{Target, receive, recvfrom_loop, recvfrom_round, store, write_at}
use clsocket.Socket.Receive.Datagram.{receive_datagram}
use clsocket.Passive.Converse.{Letter, converse, Attends, converse_lem}
use clsocket.Examples.{datagram, scripted, quiet, returning, hello}

abbrev with_memory : State
with_memory = record datagram { caller_buffer = replicate 8 none }

abbrev datagram_reply : Reply
datagram_reply = record quiet { ret = pos 5; bytes = hello }

receive_datagram_example :
    Ends
      (receive 1 (pos 8) Target.caller (scripted (datagram_reply ∷ [])) with_memory)
      λ got s'. got ≡ pos 5
unfolding is_interrupted translate_errno receive recvfrom_loop recvfrom_round store write_at
receive_datagram_example =
    (receive_datagram (scripted (datagram_reply ∷ [])) 0 (pos 8) with_memory refl refl (omega arith)
      refl).0

abbrev host_at : ℕ → SockAddr
host_at n = record { sin_family = Family.af_inet; sin_port = 7; s_addr = n }

-- Two hosts write in turn, and each gets an answer of its own.
abbrev letters : List Letter
letters =
    record { sender = host_at 1; answer = 97 ∷ [] }
    ∷ record { sender = host_at 2; answer = 98 ∷ [] }
    ∷ []

abbrev busy : Env
busy = scripted (
    record datagram_reply { addr = some (host_at 1) }
    ∷ returning (pos 1)
    ∷ record datagram_reply { addr = some (host_at 2) }
    ∷ returning (pos 1)
    ∷ [])

converse_lem_example :
    Ends (converse 1 (pos 8) ((97 ∷ []) ∷ (98 ∷ []) ∷ []) busy with_memory) λ z v.
      Attends busy (pos 5) (pos 8) 8 false (host_at 0) v
      × (v.trace
          ≡ Call.sendto (pos 5) (98 ∷ []) (host_at 2)
            ∷ Call.recvfrom (pos 5) (pos 8)
            ∷ Call.sendto (pos 5) (97 ∷ []) (host_at 1)
            ∷ Call.recvfrom (pos 5) (pos 8)
            ∷ [])
unfolding is_interrupted translate_errno
converse_lem_example =
    converse_lem busy (pos 5) (pos 8) 8 false (host_at 0) 1 letters with_memory
      (record {
        handle = refl;
        open_handle = refl;
        is_udp = refl;
        mode = refl;
        memory = refl;
        old_client = refl;
        calm = refl;
      })
      (
        record {
          some_answer = omega arith;
          came_from = refl;
          fits = omega arith;
          comes_calmly = λ e h. h;
          leaves_calmly = λ e h. h;
        },
        (
          record {
            some_answer = omega arith;
            came_from = refl;
            fits = omega arith;
            comes_calmly = λ e h. h;
            leaves_calmly = λ e h. h;
          },
          tt,
        ),
      )
