-- ===== src/Cri/Transport/Fragments.antt =====
-- A message that comes in pieces.
use carrels.Base.{
  ℕ, ◌+◌, ◌-◌, ◌%◌, ◌^◌, ◌≤◌, ◌<◌, ◌≡◌, refl, sym, ◌∙◌, ap, inl, inr, true, Bool-cases, List, ◌++◌,
  arith, length, length-append, ltb, leb, of_bytes,
}
use mathlib.Core.List.{append_assoc}
use carrels.Cri.State.{System}
use carrels.Cri.Dispatch.{set_runtime}
use carrels.Cri.Transport.{
  CriEnv, has_valid_header, process_stream, receive, stream_size, rpc_header_size,
}

-- The stream with a payload behind it.
abbrev extended : System → List ℕ → System
extended s payload = set_runtime s (record s.runtime {
  stream = s.runtime.stream ++ payload;
  rx_fwd_cnt = (s.runtime.rx_fwd_cnt + length payload) % 2 ^ 32;
})

module _ (env : CriEnv) (yield : System → System) where
  process_stream-part :
      (s : System)
      → length s.runtime.stream < stream_size
      → (rpc_header_size ≤ length s.runtime.stream
          → has_valid_header (of_bytes s.runtime.stream) ≡ true)
      → process_stream env yield s ≡ s
  unfolding process_stream
  process_stream-part s short valid =
      elim (Bool-cases (ltb (length s.runtime.stream) rpc_header_size)) [
        | inl few ↦ rw few refl
        | inr header ↦
            let part : ltb (length s.runtime.stream) stream_size ≡ true = ground arith in
            rw (header, valid (ground arith), part) refl
      ]

  receive-fits :
      (s : System) (payload : List ℕ)
      → length s.runtime.stream + length payload ≤ stream_size
      → receive env yield s payload ≡ process_stream env yield (extended s payload)
  unfolding receive
  receive-fits s payload fits =
      let room : leb (length payload) (stream_size - length s.runtime.stream) ≡ true =
        ground arith in
      rw room refl

  extended-extended :
      (s : System) (xs ys : List ℕ) → extended (extended s xs) ys ≡ extended s (xs ++ ys)
  extended-extended s xs ys =
      ground (arith, append_assoc s.runtime.stream xs ys, length-append xs ys)

  -- If a first payload leaves the stream below its full size, and without a bad header, which would
  -- be refused as soon as it is there, and the stream with both payloads fits into the stream buffer,
  -- then two payloads may come in two packets or in one: the system is the same behind them, whatever
  -- messages the second payload completes.
  pub receive-append :
      (s : System) (xs ys : List ℕ)
      → length s.runtime.stream + length xs < stream_size
      → length s.runtime.stream + length xs + length ys ≤ stream_size
      → (rpc_header_size ≤ length s.runtime.stream + length xs
          → has_valid_header (of_bytes (s.runtime.stream ++ xs)) ≡ true)
      → receive env yield (receive env yield s xs) ys ≡ receive env yield s (xs ++ ys)
  receive-append s xs ys part fits valid =
      let first : receive env yield s xs ≡ extended s xs =
        receive-fits s xs (omega arith)
        ∙ process_stream-part (extended s xs) (omega (arith, length-append s.runtime.stream xs))
            (λ h. valid (omega (arith, length-append s.runtime.stream xs, h))) in
      ap (λ t. receive env yield t ys) first
      ∙ receive-fits (extended s xs) ys (omega (arith, length-append s.runtime.stream xs))
      ∙ ap (process_stream env yield) (extended-extended s xs ys)
      ∙ sym (receive-fits s (xs ++ ys) (omega (arith, length-append xs ys)))
