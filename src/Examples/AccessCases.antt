-- ===== src/Examples/AccessCases.antt =====
-- The inline methods and the byte order conversions at concrete inputs.
use clsocket.Base.{ℕ, ◌+◌, ◌*◌, ◌/◌, ◌%◌, ◌^◌, ◌≡◌, refl, true, some, List, [], ◌∷◌, arith}
use clsocket.Net.{Errno, Family, SockAddr, Call, Reply, Env}
use clsocket.Host.{htonll, ntohll}
use clsocket.Host.Conversions.{Inverts, ntohll-htonll}
use clsocket.Socket.{Ends}
use clsocket.Socket.Access.{get_client_addr, get_client_port, get_server_addr, get_server_port}
use clsocket.Active.{open_to}
use clsocket.Active.Ports.{open_to_ports}
use clsocket.Examples.{start, scripted, failing, quiet, answering}

-- The swap of the two halves of 32 bits.
abbrev swap_halves : ℕ → ℕ
swap_halves w = w % 2 ^ 16 * 2 ^ 16 + w / 2 ^ 16

abbrev swapping : Env
swapping = record (scripted []) { htonl = swap_halves; ntohl = swap_halves }

swapping-Inverts : Inverts swapping
swapping-Inverts = record {
  htonl_fits = λ w h. omega (arith, h);
  ntohl-htonl = λ w h. omega (arith, h);
}

ntohll-htonll_example :
    ntohll swapping (htonll swapping 0x0123_4567_89ab_cdef) ≡ 0x0123_4567_89ab_cdef
ntohll-htonll_example = ntohll-htonll swapping 0x0123_4567_89ab_cdef swapping-Inverts (omega arith)

-- The kernel refuses the option.
abbrev refusing : Env
refusing = scripted (failing Errno.einval ∷ [])

abbrev peer_end : SockAddr
peer_end = record { sin_family = Family.af_inet; sin_port = 80; s_addr = 1 }

abbrev own_end : SockAddr
own_end = record { sin_family = Family.af_inet; sin_port = 40000; s_addr = 2 }

abbrev connecting_reply : List Call → Reply
connecting_reply (Call.gethostbyname name ∷ cs) = record quiet { host = some 1 }
connecting_reply (Call.getpeername fd ∷ cs) = record quiet { addr = some peer_end }
connecting_reply (Call.getsockname fd ∷ cs) = record quiet { addr = some own_end }
connecting_reply _ = quiet

open_to_ports_example :
    Ends (open_to (some (97 ∷ [])) 80 (answering connecting_reply) start) λ done s'.
      done ≡ true
      → (get_server_port (answering connecting_reply) s'.sock ≡ 80)
        × (get_client_port s'.sock ≡ 40000)
        × (get_server_addr (answering connecting_reply) s'.sock ≡ 1 ∷ [])
        × (get_client_addr (answering connecting_reply) s'.sock ≡ 2 ∷ [])
open_to_ports_example =
    open_to_ports (answering connecting_reply) start 80 peer_end own_end (some (97 ∷ [])) refl
      (record { peer_named = λ cs. refl; own_named = λ cs. refl })
