-- ===== src/Examples/ReceiveCases.antt =====
-- `Receive` and `SendFile` at concrete inputs.
use clsocket.Base.{pos, ◌≡◌, refl, List, [], ◌∷◌, arith}
use clsocket.Net.{Errno, Call, Reply}
use clsocket.Error.{translate_errno, is_interrupted}
use clsocket.Socket.{Ends, fault}
use clsocket.Socket.Receive.{Target, receive, recv_loop, recv_round, store, write_at}
use clsocket.Socket.Receive.Method.{receive_once}
use clsocket.Socket.Receive.Interrupted.{receive_interrupted_fault}
use clsocket.Socket.SendFile.{send_file}
use clsocket.Socket.SendFile.Total.{Reported, send_file_total}
use clsocket.Examples.{start, scripted, answering, quiet, returning, failing, hello}

-- Five bytes come.
abbrev greeted : Reply
greeted = record quiet { ret = pos 5; bytes = hello }

receive_once_example :
    Ends (receive 1 (pos 8) Target.internal (scripted (greeted ∷ [])) start) λ got s'. got ≡ pos 5
unfolding is_interrupted translate_errno receive recv_loop recv_round store write_at
receive_once_example =
    (receive_once (scripted (greeted ∷ [])) 0 8 start tt refl refl (omega arith) refl).0

receive_interrupted_fault_example :
    receive 2 (pos 8) Target.internal (scripted (failing Errno.eintr ∷ greeted ∷ [])) start ≡ fault
receive_interrupted_fault_example =
    receive_interrupted_fault (scripted (failing Errno.eintr ∷ greeted ∷ [])) 0 8 104
      (101 ∷ 108 ∷ 108 ∷ 111 ∷ []) start tt refl refl refl refl refl refl

-- The file ends within its second block.
abbrev short_file : List Call → Reply
short_file (Call.read fd n ∷ Call.lseek in_fd offset ∷ []) = record quiet { ret = n }
short_file (Call.send_block fd bytes ∷ cs) = returning (pos 8192)
short_file _ = quiet

send_file_total_example :
    Ends
      (send_file 3 (pos 5) (pos 3) (pos 100) (pos 10000) (answering short_file) start)
      (Reported 10000 (pos 100) start)
send_file_total_example =
    send_file_total (answering short_file) (pos 5) (pos 3) 2 10000 (pos 100) start (omega arith)
      (omega arith)
