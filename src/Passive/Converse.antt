-- ===== src/Passive/Converse.antt =====
-- `Receive` and `Send` of a UDP `CPassiveSocket` in turn: to whom the answers go.
use clsocket.Base.{
  arith, ℕ, suc, ◌<◌, ◌≤◌, ℤ, Bool, true, false, ◌≡◌, refl, ap, ◌∙◌, Option, some, List, [], ◌∷◌,
  map, length, take-length, if◌then◌else◌,
}
use clsocket.Net.{Errno, SockAddr, Call, Bytes, Env}
use clsocket.Error.{translate_errno, is_interrupted}
use clsocket.Socket.{SocketType, State, Op, Ends, is_valid_handle, or_else, pure, ◌>>◌}
use clsocket.Socket.Steps.{Ends-map, Ends->>=}
use clsocket.Socket.Receive.{Target, receive}
use clsocket.Socket.Receive.Memory.{length-overwritten}
use clsocket.Socket.Receive.Datagram.{recvfrom_trace, receive_datagram}
use clsocket.Passive.{passive_send}
use clsocket.Passive.Sending.{to_client, passive_send-udp}

-- A server that takes a datagram into its memory and answers, as often as it has answers.
abbrev pub converse : ℕ → ℤ → List Bytes → Op (Unit {0})
converse fuel max [] = pure tt
converse fuel max (answer ∷ answers) = do
  receive (suc fuel) max Target.caller
  passive_send fuel (some answer) (length answer)
  converse fuel max answers

-- The address that the answer to a sender goes to.
abbrev pub addressee : Bool → SockAddr → SockAddr → SockAddr
addressee is_multicast client from = if is_multicast then client else from

noted_sender :
    (is_multicast : Bool) (addr : Option SockAddr) (own client from : SockAddr)
    → addr ≡ some from
    → (if is_multicast then own else client) ≡ client
    → (if is_multicast then own else or_else addr own) ≡ addressee is_multicast client from
noted_sender true addr own client from e c = c
noted_sender false addr own client from e c = rw e refl

kept_client :
    (is_multicast : Bool) (client from : SockAddr)
    → (if is_multicast then addressee is_multicast client from else client) ≡ client
kept_client true client from = refl
kept_client false client from = refl

-- An answer, and who sent the datagram before it.
pub record Letter : Type 0 where
  pub sender : SockAddr
  pub answer : Bytes

module _ (env : Env) (fd : ℤ) (max : ℤ) (room : ℕ) (is_multicast : Bool) (client : SockAddr) where
  abbrev pub taken : List Call → List Call
  taken cs = Call.recvfrom fd max ∷ cs

  abbrev pub replied : Letter → List Call → List Call
  replied x cs = Call.sendto fd x.answer (addressee is_multicast client x.sender) ∷ taken cs

  abbrev pub all_replied : List Letter → List Call → List Call
  all_replied [] cs = cs
  all_replied (x ∷ xs) cs = all_replied xs (replied x cs)

  -- A datagram comes from the sender, has room, and leaves no interruption, nor does the answer.
  pub record Arrives (x : Letter) (cs : List Call) : Type 0 where
    pub some_answer : 0 < length x.answer
    pub came_from : (env.reply (taken cs)).addr ≡ some x.sender
    pub fits : length (env.reply (taken cs)).bytes ≤ room
    pub comes_calmly :
        (e : Errno)
        → is_interrupted (translate_errno e) ≡ false
        → is_interrupted (translate_errno (or_else (env.reply (taken cs)).errno e)) ≡ false
    pub leaves_calmly :
        (e : Errno)
        → is_interrupted (translate_errno e) ≡ false
        → is_interrupted (translate_errno (or_else (env.reply (replied x cs)).errno e)) ≡ false

  abbrev pub AllArrive : List Letter → List Call → Type 0
  AllArrive [] cs = Unit {0}
  AllArrive (x ∷ xs) cs = Arrives x cs × AllArrive xs (replied x cs)

  -- The server between two datagrams.
  pub record Attends (s : State) : Type 0 where
    pub handle : s.socket ≡ fd
    pub open_handle : is_valid_handle s.sock ≡ true
    pub is_udp : s.socket_type ≡ SocketType.udp
    pub mode : s.is_multicast ≡ is_multicast
    pub memory : length s.caller_buffer ≡ room
    pub old_client : (if is_multicast then s.client_sockaddr else client) ≡ client
    pub calm : is_interrupted (translate_errno s.errno) ≡ false

  abbrev Taken : Letter → State → State → Type 0
  Taken x s u =
      Attends u
      × (u.client_sockaddr ≡ addressee is_multicast client x.sender)
      × (u.trace ≡ taken s.trace)

  receive-Taken :
      (fuel : ℕ) (x : Letter) (s : State)
      → Attends s
      → Arrives x s.trace
      → Ends (receive (suc fuel) max Target.caller env s) λ got u. Taken x s u
  receive-Taken fuel x s a h =
      Ends-map (receive (suc fuel) max Target.caller env s)
        (receive_datagram env fuel max s a.is_udp a.open_handle (rw (a.handle, a.memory) h.fits)
          (rw a.handle (h.comes_calmly s.errno a.calm)))
        λ got u q.
          let noted : u.client_sockaddr ≡ addressee is_multicast client x.sender =
            q.5
            ∙ rw (a.handle, a.mode)
                (noted_sender is_multicast (env.reply (taken s.trace)).addr s.client_sockaddr client
                  x.sender h.came_from a.old_client) in
          (
            record {
              handle = q.7 ∙ a.handle;
              open_handle = rw q.7 a.open_handle;
              is_udp = q.8 ∙ a.is_udp;
              mode = q.9 ∙ a.mode;
              memory =
                  ap length q.3
                  ∙ length-overwritten (env.reply (recvfrom_trace env fuel max s)).bytes
                      s.caller_buffer (rw (a.handle, a.memory) h.fits)
                  ∙ a.memory;
              old_client = rw noted (kept_client is_multicast client x.sender);
              calm = rw (q.10, a.handle) (h.comes_calmly s.errno a.calm);
            },
            noted,
            q.1 ∙ rw a.handle refl,
          )

  send-Attends :
      (fuel : ℕ) (x : Letter) (s u : State)
      → Taken x s u
      → Arrives x s.trace
      → Ends
          (passive_send fuel (some x.answer) (length x.answer) env u)
          λ sent v. Attends v × (v.trace ≡ replied x s.trace)
  send-Attends fuel x s u p h =
      Ends-map (passive_send fuel (some x.answer) (length x.answer) env u)
        (passive_send-udp env u fuel x.answer (length x.answer) p.0.is_udp p.0.open_handle
          h.some_answer (omega arith))
        λ sent v q.
          let same : to_client env u fuel x.answer (length x.answer) ≡ replied x s.trace =
            rw (p.0.handle, p.1, p.2, take-length x.answer) refl in
          (
            record {
              handle = q.4 ∙ p.0.handle;
              open_handle = rw q.4 p.0.open_handle;
              is_udp = q.5 ∙ p.0.is_udp;
              mode = q.6 ∙ p.0.mode;
              memory = ap length q.8 ∙ p.0.memory;
              old_client = rw q.7 p.0.old_client;
              calm = rw (q.9, same) (h.leaves_calmly u.errno p.0.calm);
            },
            q.2 ∙ same,
          )

  -- A server on a valid UDP socket that in turn takes a datagram into its memory with `receive` and
  -- sends an answer with `passive_send`, for any number of datagrams from any senders, where each
  -- reply of recvfrom(2) names its sender and has room in the memory, each answer has a byte, and
  -- neither errno at the start nor the calls leave EINTR: it ends, and its calls are one
  -- recvfrom(2) and one sendto(2) of the whole answer for each datagram, in order, to the sender of
  -- that datagram; but on a multicast object always to the client's address that the object had at
  -- the start. The handle, the type, the mode and the length of the memory stay.
  pub converse_lem :
      (fuel : ℕ) (xs : List Letter) (s : State)
      → Attends s
      → AllArrive xs s.trace
      → Ends
          (converse fuel max (map (λ x. x.answer) xs) env s)
          λ z v. Attends v × (v.trace ≡ all_replied xs s.trace)
  converse_lem fuel [] s a h = (a, refl)
  converse_lem fuel (x ∷ xs) s a h =
      let Q : Unit {0} → State → Type 0 =
        λ z v. Attends v × (v.trace ≡ all_replied (x ∷ xs) s.trace) in
      let rest : Op (Unit {0}) = converse fuel max (map (λ x. x.answer) xs) in
      Ends->>= (λ got u. Taken x s u) Q env s (receive (suc fuel) max Target.caller)
        (λ got. passive_send fuel (some x.answer) (length x.answer) >> rest)
        (receive-Taken fuel x s a h.0)
        λ got u p.
          Ends->>= (λ sent v. Attends v × (v.trace ≡ replied x s.trace)) Q env u
            (passive_send fuel (some x.answer) (length x.answer)) (λ sent. rest)
            (send-Attends fuel x s u p h.0)
            λ sent v q.
              Ends-map (rest env v) (converse_lem fuel xs v q.0 (rw q.1 h.1))
                λ z w r. (r.0, r.1 ∙ rw q.1 refl)
