-- ===== src/Monitor/Requests/Query.antt =====
-- What the query call reports.
use carrels.Base.{
  subst, ℕ, zero, suc, ◌+◌, ◌≡◌, refl, inl, inr, Bool, not, ◌&&◌, arith, ltb, test_bit, set_bit,
  test_bit-zero, ◌==◌, Bool-cases, [], ◌∷◌,
}
use carrels.Monitor.State.{Monitor, is_live, no_error, monitor_get_pcid_from_ch}
use carrels.Monitor.Network.Peers.Sorting.{Adds, Adds-trans, Adds-none, point_set, point_kept}
use carrels.Monitor.Requests.{query_bits, monitor_call_query_protocons}

abbrev queried : Monitor → ℕ → ℕ → Bool
queried m self_id j = is_live m j && not (j == self_id)

query_bits-Adds :
    (m : Monitor) (self_id n i hi bitmap : ℕ)
    → i + n ≡ hi
    → Adds (queried m self_id) i hi bitmap (query_bits m self_id n i bitmap)
unfolding query_bits
query_bits-Adds m self_id zero i hi bitmap e =
    let same : i ≡ hi = omega arith in
    subst (λ h. Adds (queried m self_id) i h bitmap bitmap) same
      (Adds-none (queried m self_id) i bitmap)
query_bits-Adds m self_id (suc n) i hi bitmap e =
    elim (Bool-cases (is_live m i && not (i == self_id))) [
      | inl here ↦ rw here (
          Adds-trans (queried m self_id) i (i + 1) hi bitmap (set_bit bitmap i) _ (omega arith)
            (omega arith) (point_set (queried m self_id) bitmap i here)
            (query_bits-Adds m self_id n (i + 1) hi (set_bit bitmap i) (omega arith)))
      | inr absent ↦ rw absent (
          Adds-trans (queried m self_id) i (i + 1) hi bitmap bitmap _ (omega arith) (omega arith)
            (point_kept (queried m self_id) bitmap i absent)
            (query_bits-Adds m self_id n (i + 1) hi bitmap (omega arith)))
    ]

-- The query call changes nothing, and answers with the caller's id and a map of the protocons that
-- are active or suspended, the caller excepted.
pub monitor_call_query_protocons-map :
    (m : Monitor) (ch : ℕ)
    → (bitmap : ℕ) × (monitor_call_query_protocons m ch
        ≡ (m, record { label = no_error; words = bitmap ∷ monitor_get_pcid_from_ch ch ∷ [] }))
      × ((j : ℕ)
          → test_bit bitmap j
            ≡ (ltb j 16 && (is_live m j && not (j == monitor_get_pcid_from_ch ch))))
unfolding monitor_call_query_protocons
monitor_call_query_protocons-map m ch = (
  query_bits m (monitor_get_pcid_from_ch ch) 16 0 0,
  refl,
  λ j.
      let h = query_bits-Adds m (monitor_get_pcid_from_ch ch) 16 0 16 0 refl j in
      ground (arith, test_bit-zero j),
)
