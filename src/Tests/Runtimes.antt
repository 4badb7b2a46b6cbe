-- ===== src/Tests/Runtimes.antt =====
-- The container runtime: two containers in a table, and messages in pieces.
use carrels.Base.{
  ℕ, zero, suc, ◌+◌, ◌*◌, ◌/◌, ◌%◌, ◌<◌, ◌≡◌, refl, ap, true, Bool-cases, inl, inr, none, some,
  List, [], ◌∷◌, ◌++◌, arith, length, if◌then◌else◌, ◌==◌, codes,
}
use carrels.Tests.Orchestrators.{orchestrator_env, idle}
use carrels.Cri.Objects.{CriObject, zero_object, Table}
use carrels.Cri.State.{create_container, stop_container, list_container, CriRuntime, System}
use carrels.Cri.Dispatch.{container_id_of, dispatch, dispatch_container}
use carrels.Cri.Dispatch.Names.{IsFormat}
use carrels.Cri.Dispatch.Invariant.{AreNumbered, dispatch-AreNumbered}
use carrels.Cri.Dispatch.Refinement.{Refines, promised, dispatch_container-Refines}
use carrels.Cri.Dispatch.Listing.{ask_all, objects_from, dispatch_container-lists}
use carrels.Cri.Transport.{CriEnv, receive, cri_runtime_notified}
use carrels.Cri.Transport.Bounds.{IsReady, cri_runtime_notified-IsReady}
use carrels.Cri.Transport.Fragments.{receive-append}

-- The hexadecimal digits of a number, the last one first.
abbrev digits : ℕ → ℕ → List ℕ
digits zero n = []
digits (suc k) n = (48 + n % 16) ∷ digits k (n / 16)

abbrev bound : ℕ → ℕ
bound zero = 1
bound (suc k) = bound k * 16

digits-differ : (k a b : ℕ) → a < bound k → b < bound k → digits k a ≡ digits k b → a ≡ b
digits-differ zero a b p q e = omega arith
digits-differ (suc k) a b p q e =
    let high = digits-differ k (a / 16) (b / 16) (omega arith) (omega arith) cc in
    let low : 48 + a % 16 ≡ 48 + b % 16 = cc in omega arith

length-digits : (k n : ℕ) → length (digits k n) ≡ k
length-digits zero n = refl
length-digits (suc k) n = ap suc (length-digits k (n / 16))

abbrev hex : ℕ → List ℕ
hex = digits 16

hex-IsFormat : IsFormat hex
hex-IsFormat = record {
  differ = λ a b p q e. digits-differ 16 a b p q e;
  digits = λ a p. omega (arith, length-digits 16 a);
}

abbrev pub container : CriObject
container = record zero_object {
  present = true;
  id = container_id_of hex 1;
  state = 1;
  network_ns = 2;
}

abbrev request : CriObject
request = record zero_object { id = container_id_of hex 1; image = codes "hello" }

abbrev one_container : Table
one_container i = if i == 0 then container else zero_object

abbrev pub runtime : CriRuntime
runtime = record {
  sandboxes = λ i. zero_object;
  containers = one_container;
  images = λ i. zero_object;
  next_id = 1;
  timestamp = 7;
  connected = true;
  peer_cid = 3;
  peer_port = 40;
  tx_count = 0;
  rx_fwd_cnt = 0;
  stream = [];
  start_after_reply = none;
  trace = [];
}

abbrev system : System
system = record { runtime = runtime; orchestrator = idle }

one_container-named :
    (i : ℕ) → (one_container i).present ≡ true → (one_container i).id ≡ container_id_of hex 1
one_container-named i p = elim (Bool-cases (i == 0)) [
  | inl first ↦ rw first refl
  | inr other ↦ absurd (let f = rw other at p in cc)
]

runtime-AreNumbered : AreNumbered hex runtime
runtime-AreNumbered = record {
  sandboxes = record {
    distinct = λ i j lt lt' p q e. absurd (let f = p in cc);
    issued = λ i lt p. absurd (let f = p in cc);
  };
  containers = record {
    distinct = λ i j lt lt' p q e. ground arith;
    issued = λ i lt p. record { number = 1; below = omega arith; named = one_container-named i p };
  };
}

dispatch-AreNumbered_example :
    AreNumbered hex (dispatch hex orchestrator_env system request create_container).2.runtime
dispatch-AreNumbered_example =
    dispatch-AreNumbered hex hex-IsFormat orchestrator_env system request create_container
      (omega arith) runtime-AreNumbered

dispatch_container-Refines_example :
    Refines
      (dispatch_container hex orchestrator_env system request stop_container)
      (promised hex hex-IsFormat orchestrator_env system request stop_container)
dispatch_container-Refines_example =
    dispatch_container-Refines hex hex-IsFormat orchestrator_env system request stop_container
      (omega arith) runtime-AreNumbered (λ e. cc)

dispatch_container-lists_example :
    (ask_all
        (λ cursor.
          (dispatch hex orchestrator_env system
            (record request { cursor = cursor })
            list_container).1)
        33
        0
      ≡ some (objects_from one_container 32 0))
    × ((cursor : ℕ)
        → (dispatch hex orchestrator_env system
            (record request { cursor = cursor })
            list_container).2
          ≡ system)
dispatch_container-lists_example = dispatch_container-lists hex orchestrator_env system request

abbrev cri_env : CriEnv
cri_env = record {
  has_tx_buffer = λ t. true;
  enqueues = λ t. true;
  buffer_size = 4096;
  format_id = hex;
  orchestrator_env = orchestrator_env;
}

-- A packet of the peer with ten bytes of a message.
abbrev ten : List ℕ
ten = 0x4d ∷ 0x56 ∷ 0x52 ∷ 0x43 ∷ 1 ∷ 0 ∷ 1 ∷ 0 ∷ 5 ∷ 0 ∷ []

cri_runtime_notified-IsReady_example :
    IsReady (cri_runtime_notified cri_env (λ s. s) system (ten ∷ ten ∷ []))
cri_runtime_notified-IsReady_example =
    cri_runtime_notified-IsReady cri_env (λ s. s) (λ s v. v) system (ten ∷ ten ∷ [])
      (record { short = omega arith; settled = refl })

receive-append_example :
    receive cri_env (λ s. s) (receive cri_env (λ s. s) system ten) ten
    ≡ receive cri_env (λ s. s) system (ten ++ ten)
receive-append_example =
    receive-append cri_env (λ s. s) system ten ten (omega arith) (omega arith)
      (λ h. absurd (omega (arith, h)))
