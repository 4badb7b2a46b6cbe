-- ===== src/Cri/Transport/Bounds.antt =====
-- The length of the byte stream, and the start that waits for the reply to its request.
use carrels.Base.{
  ℕ, ◌-◌, ◌≤◌, ◌<◌, ◌≡◌, ◌==◌, refl, ◌∙◌, inl, inr, Bool, true, false, not, ◌&&◌, ◌||◌, Bool-cases,
  Option, none, some, List, [], ◌∷◌, arith, length, length-append, ltb, leb, Memory, of_bytes,
  read_u16, read_u32, read_u64,
}
use carrels.Orchestrator.State.{OrchestratorEnv}
use carrels.Cri.Objects.{CriObject}
use carrels.Cri.State.{CriOp, op_of, CriRuntime, System, RpcReply}
use carrels.Cri.Dispatch.{
  Answered, dispatch, dispatch_sandbox, dispatch_container, dispatch_image, set_runtime,
}
use carrels.Cri.Transport.{
  CriEnv, send_packet, is_start, is_ok, started_as, start_after, start_if, start_requested,
  answer_request, has_valid_header, reset_stream, process_stream, receive, connect, is_from_peer,
  disconnect, process_peer, process_packet, process_packets, cri_runtime_notified, stream_size,
  rpc_header_size, vsock_hdr_size, op_rw,
}

-- Between two packets: the stream holds less than a message, and no start waits.
pub record IsReady (s : System) : Type 0 where
  pub short : length s.runtime.stream < stream_size
  pub settled : s.runtime.start_after_reply ≡ none

-- What a packet that is sent leaves as it is.
record SameReceiver (r r' : CriRuntime) : Type 0 where
  pub stream : r'.stream ≡ r.stream
  pub waiting : r'.start_after_reply ≡ r.start_after_reply

send_packet-SameReceiver :
    (env : CriEnv) (r : CriRuntime) (op : ℕ) (answer : Option RpcReply) (len : ℕ)
    → SameReceiver r (send_packet env r op answer len).1
unfolding send_packet
send_packet-SameReceiver env r op answer len = ground arith

-- A start waits only behind a successful start request.
abbrev Settled : CriOp → Answered → Type 0
Settled op (status, response, s) =
    is_start op && is_ok status ≡ false → s.runtime.start_after_reply ≡ none

sandbox-Settled :
    (format_id : ℕ → List ℕ) (s : System) (request : CriObject) (op : CriOp)
    → s.runtime.start_after_reply ≡ none
    → Settled op (dispatch_sandbox format_id s request op)
unfolding dispatch_sandbox
sandbox-Settled format_id s request op h = ground arith

image-Settled :
    (s : System) (request : CriObject) (op : CriOp)
    → s.runtime.start_after_reply ≡ none
    → Settled op (dispatch_image s request op)
unfolding dispatch_image
image-Settled s request op h = ground arith

container-Settled :
    (format_id : ℕ → List ℕ) (env : OrchestratorEnv) (s : System) (request : CriObject) (op : CriOp)
    → s.runtime.start_after_reply ≡ none
    → Settled op (dispatch_container format_id env s request op)
unfolding dispatch_container
container-Settled format_id env s request op h = ground arith

dispatch-Settled :
    (format_id : ℕ → List ℕ) (env : OrchestratorEnv) (s : System) (request : CriObject) (op : CriOp)
    → s.runtime.start_after_reply ≡ none
    → Settled op (dispatch format_id env s request op)
unfolding dispatch
dispatch-Settled format_id env s request op h = ground (
  arith,
  sandbox-Settled format_id s request op h,
  image-Settled s request op h,
  container-Settled format_id env s request op h,
)

module _ (env : CriEnv) (yield : System → System)
    (yields : (s : System) → IsReady s → IsReady (yield s)) where
  started_as-IsReady :
      (s : System) (i : ℕ) (o : Option ℕ) → IsReady s → IsReady (started_as env yield s i o)
  unfolding started_as
  started_as-IsReady s i none v = record { short = v.short; settled = v.settled }
  started_as-IsReady s i (some pc_id) v =
      let w = yields s v in record { short = w.short; settled = w.settled }

  start_after-IsReady : (s : System) (i : ℕ) → IsReady s → IsReady (start_after env yield s i)
  unfolding start_after
  start_after-IsReady s i v =
      started_as-IsReady _ i _ (record { short = v.short; settled = v.settled })

  start_requested-IsReady :
      (s : System) (o : Option ℕ)
      → s.runtime.stream ≡ []
      → s.runtime.start_after_reply ≡ o
      → IsReady (start_requested env yield s o)
  start_requested-IsReady s none empty e = record { short = rw empty (omega arith); settled = e }
  start_requested-IsReady s (some i) empty e =
      start_after-IsReady _ i (record { short = rw empty (omega arith); settled = refl })

  start_if-IsReady :
      (starts : Bool) (s : System)
      → s.runtime.stream ≡ []
      → (starts ≡ false → s.runtime.start_after_reply ≡ none)
      → IsReady (start_if env yield starts s)
  start_if-IsReady true s empty settled = start_requested-IsReady s _ empty refl
  start_if-IsReady false s empty settled = record {
    short = rw empty (omega arith);
    settled = settled refl;
  }

  answer_request-IsReady :
      (mem : Memory) (op : ℕ) (a : Answered)
      → Settled (op_of op) a
      → IsReady (answer_request env yield mem op a)
  unfolding answer_request
  answer_request-IsReady mem op (status, response, s) settled =
      let reply : RpcReply = record {
        op = op;
        request_id = read_u32 mem 8;
        status = status;
        object = response;
      } in
      let same = send_packet-SameReceiver env s.runtime op_rw (some reply) stream_size in
      start_if-IsReady _ _ refl (λ h. same.waiting ∙ settled h)

  reset_stream-IsReady :
      (s : System) → s.runtime.start_after_reply ≡ none → IsReady (reset_stream env yield s)
  reset_stream-IsReady s settled =
      let same = send_packet-SameReceiver env (record s.runtime { stream = [] }) 3 none 0 in
      record { short = rw same.stream (omega arith); settled = same.waiting ∙ settled }

  process_stream-IsReady :
      (s : System)
      → s.runtime.start_after_reply ≡ none
      → length s.runtime.stream ≤ stream_size
      → IsReady (process_stream env yield s)
  unfolding process_stream
  process_stream-IsReady s settled small =
      elim (Bool-cases (ltb (length s.runtime.stream) rpc_header_size)) [
        | inl few ↦ rw few (record { short = ground arith; settled = settled })
        | inr header ↦ elim (Bool-cases (has_valid_header (of_bytes s.runtime.stream))) [
          | inl valid ↦ elim (Bool-cases (ltb (length s.runtime.stream) stream_size)) [
            | inl part ↦
                rw (header, valid, part) (record { short = ground arith; settled = settled })
            | inr whole ↦
                rw (header, valid, whole)
                  (answer_request-IsReady _ _ _
                    (dispatch-Settled env.format_id env.orchestrator_env s _ (op_of _) settled))
          ]
          | inr bad ↦ rw (header, bad) (reset_stream-IsReady s settled)
        ]
      ]

  receive-IsReady :
      (s : System) (payload : List ℕ) → IsReady s → IsReady (receive env yield s payload)
  unfolding receive
  receive-IsReady s payload v =
      elim (Bool-cases (leb (length payload) (stream_size - length s.runtime.stream))) [
        | inl fits ↦ rw fits (
            process_stream-IsReady _ v.settled
              (ground (arith, length-append s.runtime.stream payload, v.short)))
        | inr over ↦ rw over v
      ]

  -- A packet that is sent and leaves the receiver as it is.
  sent-IsReady :
      (s : System) (r : CriRuntime) (op : ℕ)
      → length r.stream < stream_size
      → r.start_after_reply ≡ none
      → IsReady (set_runtime s (send_packet env r op none 0).1)
  sent-IsReady s r op short settled =
      let same = send_packet-SameReceiver env r op none 0 in
      record { short = rw same.stream short; settled = same.waiting ∙ settled }

  connect-IsReady : (s : System) (mem : Memory) → IsReady s → IsReady (connect env yield s mem)
  unfolding connect
  connect-IsReady s mem v =
      elim (Bool-cases (s.runtime.connected || not (read_u32 mem 20 == 1234))) [
        | inl refused ↦ rw refused v
        | inr accepted ↦ rw accepted (sent-IsReady s _ 2 (omega arith) v.settled)
      ]

  disconnect-IsReady : (s : System) (op : ℕ) → IsReady s → IsReady (disconnect env yield s op)
  unfolding disconnect
  disconnect-IsReady s op v =
      let same = send_packet-SameReceiver env s.runtime 3 none 0 in
      elim (Bool-cases (op == 4)) [
        | inl shutdown ↦
            rw shutdown (record { short = omega arith; settled = same.waiting ∙ v.settled })
        | inr reset ↦ rw reset (record { short = omega arith; settled = v.settled })
      ]

  process_peer-IsReady :
      (s : System) (packet : List ℕ) (mem : Memory) (op : ℕ)
      → IsReady s
      → IsReady (process_peer env yield s packet mem op)
  unfolding process_peer
  process_peer-IsReady s packet mem op v = elim (Bool-cases (op == 5)) [
    | inl rw_op ↦ rw rw_op (receive-IsReady s _ v)
    | inr other ↦ elim (Bool-cases (op == 7)) [
      | inl credit ↦ rw (other, credit) (sent-IsReady s s.runtime 6 v.short v.settled)
      | inr ending ↦ elim (Bool-cases (op == 4 || op == 3)) [
        | inl ends ↦ rw (other, ending, ends) (disconnect-IsReady s op v)
        | inr none_of_these ↦ rw (other, ending, none_of_these) v
      ]
    ]
  ]

  process_packet-IsReady :
      (s : System) (packet : List ℕ) → IsReady s → IsReady (process_packet env yield s packet)
  unfolding process_packet
  process_packet-IsReady s packet v =
      let mem = of_bytes packet in
      elim (Bool-cases (
        ltb (length packet) vsock_hdr_size
        || ltb (length packet - vsock_hdr_size) (read_u32 mem 24)
        || not (read_u64 mem 8 == 2)
        || not (read_u16 mem 28 == 1))) [
          | inl malformed ↦ rw malformed v
          | inr formed ↦ elim (Bool-cases (read_u16 mem 30 == 1)) [
            | inl request ↦ rw (formed, request) (connect-IsReady s mem v)
            | inr other ↦ elim (Bool-cases (is_from_peer s.runtime mem)) [
              | inl peer ↦ rw (formed, other, peer) (process_peer-IsReady s packet mem _ v)
              | inr stranger ↦ rw (formed, other, stranger) v
            ]
          ]
        ]

  process_packets-IsReady :
      (s : System) (packets : List (List ℕ))
      → IsReady s
      → IsReady (process_packets env yield s packets)
  unfolding process_packets
  process_packets-IsReady s [] v = v
  process_packets-IsReady s (packet ∷ rest) v =
      process_packets-IsReady (process_packet env yield s packet) rest
        (process_packet-IsReady s packet v)

  -- Whatever bytes the packets have that wait, behind them the stream is shorter than its buffer, and
  -- no start is left waiting, if both held before and the cothreads keep both.
  pub cri_runtime_notified-IsReady :
      (s : System) (packets : List (List ℕ))
      → IsReady s
      → IsReady (cri_runtime_notified env yield s packets)
  unfolding cri_runtime_notified process_packets
  cri_runtime_notified-IsReady s [] v = v
  cri_runtime_notified-IsReady s (packet ∷ rest) v =
      let w = process_packets-IsReady s (packet ∷ rest) v in
      record { short = w.short; settled = w.settled }
