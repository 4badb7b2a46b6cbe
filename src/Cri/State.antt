-- ===== src/Cri/State.antt =====
-- The globals of src/orchestrator/cri_runtime.c, the numbers of its protocol, and the system that the
-- runtime and the orchestrator make.
use carrels.Base.{ℕ, ◌==◌, if◌then◌else◌, Bool, Option, List}
use carrels.Orchestrator.State.{Orchestrator}
use carrels.Cri.Objects.{CriObject, Table}

pub data CriOp : Type 0 where
  hello : CriOp
  run_sandbox stop_sandbox remove_sandbox sandbox_status list_sandbox : CriOp
  create_container start_container stop_container remove_container : CriOp
  container_status list_container reopen_log : CriOp
  pull_image remove_image image_status list_image : CriOp
  unknown_op : CriOp

-- `enum cri_op`.
unfoldable pub op_of : ℕ → CriOp
op_of n =
    if n == 1
    then hello
    else if n == 10
    then run_sandbox
    else if n == 11
    then stop_sandbox
    else if n == 12
    then remove_sandbox
    else if n == 13
    then sandbox_status
    else if n == 14
    then list_sandbox
    else if n == 20
    then create_container
    else if n == 21
    then start_container
    else if n == 22
    then stop_container
    else if n == 23
    then remove_container
    else if n == 24
    then container_status
    else if n == 25
    then list_container
    else if n == 26
    then reopen_log
    else if n == 30
    then pull_image
    else if n == 31
    then remove_image
    else if n == 32
    then image_status
    else if n == 33
    then list_image
    else unknown_op

pub data CriResult : Type 0 where
  cri_ok cri_not_found cri_invalid cri_full : CriResult

-- The answer to a request, with its number.
pub record RpcReply : Type 0 where
  pub op : ℕ
  pub request_id : ℕ
  pub status : CriResult
  pub object : CriObject

-- A packet to the peer: the header's fields that vary, and the answer that it carries.
pub record Packet : Type 0 where
  pub op : ℕ
  pub dst_cid : ℕ
  pub dst_port : ℕ
  pub fwd_cnt : ℕ
  pub answer : Option RpcReply

pub data TransportEvent : Type 0 where
  sent : Packet → TransportEvent
  notified_peer : TransportEvent

-- The globals of the file. `stream` holds the bytes below `stream_len`; `trace` is what
-- has been put into the transmit queue, and the notifications, newest first.
pub record CriRuntime : Type 0 where
  pub sandboxes : Table
  pub containers : Table
  pub images : Table
  pub next_id : ℕ
  pub timestamp : ℕ
  pub connected : Bool
  pub peer_cid : ℕ
  pub peer_port : ℕ
  pub tx_count : ℕ
  pub rx_fwd_cnt : ℕ
  pub stream : List ℕ
  pub start_after_reply : Option ℕ
  pub trace : List TransportEvent

-- The runtime and the orchestrator that it is a part of.
pub record System : Type 0 where
  pub runtime : CriRuntime
  pub orchestrator : Orchestrator
