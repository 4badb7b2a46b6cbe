-- ===== src/Cri/Transport.antt =====
-- The byte stream and the packets of src/orchestrator/cri_runtime.c. A packet is the list of its bytes.
pub mod Bounds
pub mod Fragments
use carrels.Base.{
  ℕ, zero, suc, ◌+◌, ◌-◌, ◌%◌, ◌^◌, ◌==◌, if◌then◌else◌, Bool, true, false, not, ◌&&◌, ◌||◌, Option,
  none, some, List, [], ◌∷◌, ◌++◌, length, take, drop, ltb, leb, update, codes, same_text, Memory,
  of_bytes, read_u16, read_u32, read_u64,
}
use carrels.Orchestrator.State.{Orchestrator, OrchestratorEnv}
use carrels.Orchestrator.Deployments.{orchestrator_cri_start}
use carrels.Cri.Objects.{
  CriObject, Table, first_object, cri_max_objects, read_object, cri_object_size,
}
use carrels.Cri.State.{
  CriOp, op_of, start_container, CriResult, cri_ok, RpcReply, Packet, TransportEvent, sent,
  notified_peer, CriRuntime, System,
}
use carrels.Cri.Dispatch.{Answered, next, with_reason, set_runtime, dispatch}

-- What the transport's library answers may depend on all that has been sent.
pub record CriEnv : Type 0 where
  pub has_tx_buffer : List TransportEvent → Bool
  pub enqueues : List TransportEvent → Bool
  pub buffer_size : ℕ
  pub format_id : ℕ → List ℕ
  pub orchestrator_env : OrchestratorEnv

abbrev pub cri_port : ℕ
cri_port = 1234

abbrev pub cri_magic : ℕ
cri_magic = 0x4352564d

abbrev pub vsock_host_cid : ℕ
vsock_host_cid = 2

abbrev pub vsock_hdr_size : ℕ
vsock_hdr_size = 44

abbrev pub rpc_header_size : ℕ
rpc_header_size = 20

-- `sizeof(stream)`: a header and an object.
abbrev pub stream_size : ℕ
stream_size = rpc_header_size + cri_object_size

abbrev pub op_request : ℕ
op_request = 1

abbrev pub op_response : ℕ
op_response = 2

abbrev pub op_rst : ℕ
op_rst = 3

abbrev pub op_shutdown : ℕ
op_shutdown = 4

abbrev pub op_rw : ℕ
op_rw = 5

abbrev pub op_credit_update : ℕ
op_credit_update = 6

abbrev pub op_credit_request : ℕ
op_credit_request = 7

-- `len` is the length of the payload. The flag says whether the packet was sent.
unfoldable pub send_packet : CriEnv → CriRuntime → ℕ → Option RpcReply → ℕ → Bool × CriRuntime
send_packet env r op answer len =
    if not (env.has_tx_buffer r.trace)
      || ltb env.buffer_size (vsock_hdr_size + len)
      || not (env.enqueues r.trace)
    then (false, r)
    else (
      true,
      record r {
        tx_count = if op == op_rw then (r.tx_count + len) % 2 ^ 32 else r.tx_count;
        trace =
            notified_peer
            ∷ sent (record {
              op = op;
              dst_cid = r.peer_cid;
              dst_port = r.peer_port;
              fwd_cnt = r.rx_fwd_cnt;
              answer = answer;
            })
            ∷ r.trace;
      },
    )

abbrev pub is_start : CriOp → Bool
is_start start_container = true
is_start _ = false

abbrev pub is_ok : CriResult → Bool
is_ok cri_ok = true
is_ok _ = false

abbrev pub set_container : CriRuntime → ℕ → CriObject → CriRuntime
set_container r i o = record r { containers = update r.containers i o }

abbrev pub start_failed : CriRuntime → ℕ → CriRuntime
start_failed r i =
    record (set_container r i (
      with_reason (codes "CarrelsStartFailed")
        (record (r.containers i) { state = 2; exit_code = 1; finished_at = next r.timestamp }))) {
          timestamp = next r.timestamp;
        }

abbrev pub has_valid_header : Memory → Bool
has_valid_header mem =
    read_u32 mem 0 == cri_magic && read_u16 mem 4 == 1 && read_u32 mem 16 == cri_object_size

-- Whether a packet comes from the peer.
abbrev pub is_from_peer : CriRuntime → Memory → Bool
is_from_peer r mem =
    r.connected
    && read_u64 mem 0 == r.peer_cid
    && read_u32 mem 16 == r.peer_port
    && read_u32 mem 20 == cri_port

module _ (env : CriEnv) (yield : System → System) where
  -- What becomes of a container by the outcome of its start. `yield` is what the cothreads do in
  -- `orchestrator_cri_start` before it returns.
  unfoldable pub started_as : System → ℕ → Option ℕ → System
  started_as s i none = set_runtime s (start_failed s.runtime i)
  started_as s i (some pc_id) =
      let s' = yield s in
      set_runtime s'
        (set_container s'.runtime i (record (s'.runtime.containers i) { network_ns = pc_id }))

  -- The container that a request has just started.
  unfoldable pub start_after : System → ℕ → System
  start_after s i =
      let image = (s.runtime.containers i).image in
      let (o, started) =
        orchestrator_cri_start env.orchestrator_env (λ o. o) s.orchestrator image in
      started_as (record s { orchestrator = o }) i started

  abbrev pub start_requested : System → Option ℕ → System
  start_requested s none = s
  start_requested s (some i) =
      start_after (set_runtime s (record s.runtime { start_after_reply = none })) i

  abbrev pub start_if : Bool → System → System
  start_if true s = start_requested s s.runtime.start_after_reply
  start_if false s = s

  -- The request is answered, and what it started is started.
  unfoldable pub answer_request : Memory → ℕ → Answered → System
  answer_request mem op (status, response, s) =
      let reply : RpcReply = record {
        op = op;
        request_id = read_u32 mem 8;
        status = status;
        object = response;
      } in
      let (queued, r) = send_packet env s.runtime op_rw (some reply) stream_size in
      let s1 = set_runtime s (record r { stream = [] }) in
      start_if (is_start (op_of op) && is_ok status) s1

  -- A stream that is not the protocol's is dropped with the connection.
  abbrev pub reset_stream : System → System
  reset_stream s =
      let (queued, r) = send_packet env (record s.runtime { stream = [] }) op_rst none 0 in
      set_runtime s (record r { connected = false })

  unfoldable pub process_stream : System → System
  process_stream s =
      let mem = of_bytes s.runtime.stream in
      let op = read_u16 mem 6 in
      if ltb (length s.runtime.stream) rpc_header_size
      then s
      else if not (has_valid_header mem)
      then reset_stream s
      else if ltb (length s.runtime.stream) stream_size
      then s
      else answer_request mem op (
          dispatch env.format_id env.orchestrator_env s (read_object mem rpc_header_size)
            (op_of op))

  -- Bytes that do not fit into the stream are dropped.
  unfoldable pub receive : System → List ℕ → System
  receive s payload =
      let r = s.runtime in
      if leb (length payload) (stream_size - length r.stream)
      then process_stream (
          set_runtime s (record r {
            stream = r.stream ++ payload;
            rx_fwd_cnt = (r.rx_fwd_cnt + length payload) % 2 ^ 32;
          }))
      else s

  unfoldable pub connect : System → Memory → System
  connect s mem =
      let r = s.runtime in
      if r.connected || not (read_u32 mem 20 == cri_port)
      then s
      else set_runtime s
          (send_packet env
            (record r {
              connected = true;
              peer_cid = read_u64 mem 0;
              peer_port = read_u32 mem 16;
              stream = [];
            })
            op_response none 0).1

  unfoldable pub disconnect : System → ℕ → System
  disconnect s op =
      let r =
        if op == op_shutdown then (send_packet env s.runtime op_rst none 0).1 else s.runtime in
      set_runtime s (record r { connected = false; stream = [] })

  -- A packet of the peer, by its operation.
  unfoldable pub process_peer : System → List ℕ → Memory → ℕ → System
  process_peer s packet mem op =
      if op == op_rw
      then receive s (take (read_u32 mem 24) (drop vsock_hdr_size packet))
      else if op == op_credit_request
      then set_runtime s (send_packet env s.runtime op_credit_update none 0).1
      else if op == op_shutdown || op == op_rst
      then disconnect s op
      else s

  unfoldable pub process_packet : System → List ℕ → System
  process_packet s packet =
      let mem = of_bytes packet in
      let op = read_u16 mem 30 in
      if ltb (length packet) vsock_hdr_size
        || ltb (length packet - vsock_hdr_size) (read_u32 mem 24)
        || not (read_u64 mem 8 == vsock_host_cid)
        || not (read_u16 mem 28 == 1)
      then s
      else if op == op_request
      then connect s mem
      else if not (is_from_peer s.runtime mem)
      then s
      else process_peer s packet mem op

  unfoldable pub process_packets : System → List (List ℕ) → System
  process_packets s [] = s
  process_packets s (packet ∷ rest) = process_packets (process_packet s packet) rest

  abbrev pub nothing_waits : List (List ℕ) → Bool
  nothing_waits [] = true
  nothing_waits _ = false

  -- All packets that wait in the receive queue, in order.
  unfoldable pub cri_runtime_notified : System → List (List ℕ) → System
  cri_runtime_notified s packets =
      let s1 = process_packets s packets in
      if nothing_waits packets
      then s1
      else set_runtime s1 (record s1.runtime { trace = notified_peer ∷ s1.runtime.trace })

-- The container whose deployment has ended.
abbrev pub is_starting : ℕ → CriObject → Bool
is_starting pc_id o =
    o.present
    && o.state == 1
    && o.network_ns == pc_id
    && same_text o.reason (codes "CarrelsStarting")

unfoldable pub cri_runtime_deploy_complete : CriRuntime → ℕ → Bool → CriRuntime
cri_runtime_deploy_complete r pc_id failed =
    elim (first_object (is_starting pc_id) r.containers cri_max_objects 0) [
      | none ↦ r
      | some i ↦
          if failed
          then start_failed r i
          else set_container r i (with_reason (codes "CarrelsRunning") (r.containers i))
    ]
