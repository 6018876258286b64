-- ===== src/Examples/DayTimeCases.antt =====
-- What examples/QueryDayTime.cpp does against a server that answers.
use clsocket.Base.{pos, ◌≡◌, refl, some, List, ◌∷◌, arith}
use clsocket.Net.{Errno, Call, Reply, Env}
use clsocket.Error.{is_interrupted, translate_errno}
use clsocket.Socket.{SocketType, State, Buffer, fault, Ends}
use clsocket.Socket.Receive.Method.{Holds}
use clsocket.Socket.Lifecycle.{construct}
use clsocket.Programs.QueryDayTime.{read_over, printed_part, query_day_time}
use clsocket.Programs.QueryDayTime.Connection.{closed_trace}
use clsocket.Programs.QueryDayTime.Main.{query_day_time-answered, query_day_time-refused}
use clsocket.Examples.{connected, answering, quiet, failing, returning, running, hello}

-- The host is 127.0.0.1, takes the request, and answers five bytes.
abbrev day_reply : List Call → Reply
day_reply (Call.socket domain type protocol ∷ cs) = returning (pos 5)
day_reply (Call.gethostbyname name ∷ cs) = record quiet { host = some 0x7f00_0001 }
day_reply (Call.send fd bytes ∷ cs) = returning (pos 1)
day_reply (Call.recv fd offset n flags ∷ cs) = record quiet { ret = pos 5; bytes = hello }
day_reply _ = quiet

abbrev day : Env
day = answering day_reply

-- The connection is reset while the program waits.
abbrev bad_reply : List Call → Reply
bad_reply (Call.recv fd offset n flags ∷ cs) = failing Errno.econnreset
bad_reply cs = day_reply cs

abbrev bad_day : Env
bad_day = answering bad_reply

abbrev new : State
new = running (construct connected SocketType.tcp)

query_day_time-answered_example : Ends (query_day_time 1 (λ i. i) day new) λ printed t.
    ((block : Buffer) × Holds hello 49 (some block)
      × (printed ≡ some (printed_part (read_over (λ i. i) block))))
    × (t.trace ≡ closed_trace day new (pos 5) 0x7f00_0001)
unfolding is_interrupted translate_errno construct
query_day_time-answered_example =
    query_day_time-answered day new (pos 5) 0x7f00_0001 0 (λ i. i)
      (record {
        created = refl;
        is_open = λ e. cc;
        resolved = refl;
        is_address = omega arith;
        connects = λ e. cc;
        leaves = λ e. cc;
        leaves_calmly = refl;
        fits = omega arith;
        comes_calmly = refl;
      })
      refl tt (λ e. cc) (λ e. cc)

query_day_time-refused_example : query_day_time 1 (λ i. i) bad_day new ≡ fault
unfolding is_interrupted translate_errno construct
query_day_time-refused_example =
    query_day_time-refused bad_day new (pos 5) 0x7f00_0001 0 (λ i. i)
      (record {
        created = refl;
        is_open = λ e. cc;
        resolved = refl;
        is_address = omega arith;
        connects = λ e. cc;
        leaves = λ e. cc;
        leaves_calmly = refl;
        fits = omega arith;
        comes_calmly = refl;
      })
      refl tt refl
