-- ===== src/Orchestrator/Input/Chunks.antt =====
-- What reaches the shell.
use carrels.Base.{
  ℕ, ◌≤◌, ◌<◌, ◌≡◌, ◌==◌, refl, ◌∙◌, ap, inl, inr, Bool-cases, List, [], ◌∷◌, ◌++◌, map, arith,
  length, length-append,
}
use mathlib.Core.List.{append_assoc}
use carrels.Orchestrator.Commands.{shell_normalise_input}
use carrels.Orchestrator.Input.{feed_rest, read_serial, orche_handle_serial_event}

abbrev pub joined : List (List ℕ) → List ℕ
joined [] = []
joined (c ∷ cs) = c ++ joined cs

abbrev pub AllFit : ℕ → List (List ℕ) → Type 0
AllFit size [] = Unit
AllFit size (c ∷ cs) = (0 < length c) × (length c ≤ size) × AllFit size cs

module _ {ℓ} {S : Type ℓ} (feed : S → List ℕ → S) (size : ℕ) where
  abbrev pub feed_all : S → List (List ℕ) → S
  feed_all s [] = s
  feed_all s (c ∷ cs) = feed_all (feed s c) cs

  -- The shell gets the text in chunks, each of which fits into the buffer.
  pub record IsFed (s : S) (text : List ℕ) (s' : S) : Type ℓ where
    pub chunks : List (List ℕ)
    pub fed : s' ≡ feed_all s chunks
    pub whole : joined chunks ≡ text
    pub fits : AllFit size chunks

  feed_rest-IsFed :
      (input : List ℕ) (s : S)
      → length input < size
      → IsFed s (input ++ []) (feed_rest feed size s input)
  feed_rest-IsFed [] s h = record { chunks = []; fed = refl; whole = refl; fits = tt }
  feed_rest-IsFed (c ∷ cs) s h = record {
    chunks = (c ∷ cs) ∷ [];
    fed = refl;
    whole = refl;
    fits = (omega arith, omega arith, tt);
  }

  put_in : (input : List ℕ) (c : ℕ) (cs : List ℕ) → (input ++ c ∷ []) ++ cs ≡ input ++ c ∷ cs
  put_in input c cs = append_assoc input (c ∷ []) cs

  read_serial-IsFed :
      (queue input : List ℕ) (s : S)
      → length input < size
      → IsFed s (input ++ map shell_normalise_input queue) (read_serial feed size s input queue)
  unfolding read_serial
  read_serial-IsFed [] input s h = feed_rest-IsFed input s h
  read_serial-IsFed (c ∷ cs) input s h =
      let next = shell_normalise_input c in
      let grown = length-append input (next ∷ []) in
      elim (Bool-cases (length (input ++ next ∷ []) == size)) [
        | inl full ↦
            let v = read_serial-IsFed cs [] (feed s (input ++ next ∷ [])) (omega arith) in
            rw full (record {
              chunks = (input ++ next ∷ []) ∷ v.chunks;
              fed = v.fed;
              whole =
                  ap (λ t. (input ++ next ∷ []) ++ t) v.whole
                  ∙ put_in input next (map shell_normalise_input cs);
              fits = (omega arith, ground arith, v.fits);
            })
        | inr room ↦
            let v = read_serial-IsFed cs (input ++ next ∷ []) s (ground arith) in
            rw room (record {
              chunks = v.chunks;
              fed = v.fed;
              whole = v.whole ∙ put_in input next (map shell_normalise_input cs);
              fits = v.fits;
            })
      ]

  -- Every character that waits reaches the shell, in order and with its code normalised; the shell gets
  -- them in chunks that are not empty and that fit into the input buffer, which must have a place.
  pub orche_handle_serial_event-IsFed :
      (s : S) (queue : List ℕ)
      → 0 < size
      → IsFed s (map shell_normalise_input queue) (orche_handle_serial_event feed size s queue)
  unfolding orche_handle_serial_event
  orche_handle_serial_event-IsFed s queue h = read_serial-IsFed queue [] s h
