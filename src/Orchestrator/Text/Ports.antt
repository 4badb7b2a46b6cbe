-- ===== src/Orchestrator/Text/Ports.antt =====
-- The peers that a `deploy` command may name.
use carrels.Base.{
  same_text, ℕ, ◌<◌, ◌≡◌, ◌≢◌, inl, inr, Bool, true, false, not, ◌||◌, ◌==◌, Bool-cases, List, [],
  ◌∷◌, arith, test_bit, set_bit, test_bit-set_bit, test_bit-zero, Holds, Holds-bind,
}
use carrels.Orchestrator.Text.{
  parse_peer_ports, parse_ports, is_port, is_digit, overflows, nothing_left, add_digit, all_text,
}

-- Every port of the mask is one of the switch's, and none is the target's.
abbrev pub OtherPorts : ℕ → ℕ → ℕ → Type 0
OtherPorts ports target mask = (j : ℕ) → test_bit mask j ≡ true → (j < ports) × (j ≢ target)

OtherPorts-set_bit :
    (ports target mask port : ℕ) (has_digit : Bool)
    → is_port ports target port has_digit ≡ true
    → OtherPorts ports target mask
    → OtherPorts ports target (set_bit mask port)
OtherPorts-set_bit ports target mask port has_digit h v j b = elim (Bool-cases (port == j)) [
  | inl same ↦ let s = test_bit-set_bit mask port j in ground arith
  | inr other ↦ let s = test_bit-set_bit mask port j in v j (ground arith)
]

parse_ports-OtherPorts :
    (ports target : ℕ) (cs : List ℕ) (port : ℕ) (has_digit : Bool) (mask : ℕ)
    → OtherPorts ports target mask
    → Holds (OtherPorts ports target) (parse_ports ports target cs port has_digit mask)
unfolding parse_ports
parse_ports-OtherPorts ports target [] port has_digit mask v =
    elim (Bool-cases (is_port ports target port has_digit)) [
      | inl okay ↦ rw okay (OtherPorts-set_bit ports target mask port has_digit okay v)
      | inr bad ↦ rw bad tt
    ]
parse_ports-OtherPorts ports target (c ∷ cs) port has_digit mask v =
    elim (Bool-cases (is_digit c)) [
      | inl digit ↦ elim (Bool-cases (overflows port c)) [
        | inl over ↦ rw (digit, over) tt
        | inr fits ↦
            rw (digit, fits) (parse_ports-OtherPorts ports target cs (add_digit port c) true mask v)
      ]
      | inr end ↦ elim (Bool-cases (is_port ports target port has_digit)) [
        | inl okay ↦ elim (Bool-cases (not (c == 44) || nothing_left cs)) [
          | inl bad ↦ rw (end, okay, bad) tt
          | inr more ↦
              rw (end, okay, more)
                (parse_ports-OtherPorts ports target cs 0 false (set_bit mask port)
                  (OtherPorts-set_bit ports target mask port has_digit okay v))
        ]
        | inr bad ↦ rw (end, bad) tt
      ]
    ]

-- The mask of an accepted list of peers names ports of the switch only, and never the target.
pub parse_peer_ports-OtherPorts :
    (ports : ℕ) (text : List ℕ) (target : ℕ)
    → Holds (λ r. OtherPorts ports target r.0) (parse_peer_ports ports text target)
unfolding parse_peer_ports
parse_peer_ports-OtherPorts ports text target =
    let none_set : OtherPorts ports target 0 =
      λ j b. let z = test_bit-zero j in absurd (ground arith) in
    elim (Bool-cases (same_text text all_text)) [
      | inl all ↦ rw all none_set
      | inr some_peers ↦ elim (Bool-cases (nothing_left text)) [
        | inl empty ↦ rw (some_peers, empty) none_set
        | inr listed ↦
            rw (some_peers, listed)
              (Holds-bind (OtherPorts ports target) _ (parse_ports ports target text 0 false 0) _
                (parse_ports-OtherPorts ports target text 0 false 0 none_set) (λ mask v. v))
      ]
    ]
