-- ===== src/Cri/Dispatch/Names.antt =====
-- The texts of the identifiers of src/orchestrator/cri_runtime.c.
use carrels.Base.{
  ℕ, zero, suc, ◌^◌, ◌≤◌, ◌<◌, ◌≡◌, refl, sym, ◌∙◌, ap, List, [], ◌∷◌, ◌++◌, arith, codes,
  copy_string, take, length, length-append,
}
use mathlib.Core.List.{append_cancel_left}
use carrels.Cri.Dispatch.{sandbox_id_of, container_id_of}
use carrels.Cri.Dispatch.Numbered.{AreNames}

-- What the printing library promises of `%08lx`: different numbers of 64 bits are printed as different
-- texts, of at most 16 digits.
pub record IsFormat (format_id : ℕ → List ℕ) : Type 0 where
  pub differ : (a b : ℕ) → a < 2 ^ 64 → b < 2 ^ 64 → format_id a ≡ format_id b → a ≡ b
  pub digits : (a : ℕ) → a < 2 ^ 64 → length (format_id a) ≤ 16

take-all : (n : ℕ) (xs : List ℕ) → length xs ≤ n → take n xs ≡ xs
take-all zero [] h = refl
take-all zero (x ∷ xs) h = absurd (omega (arith, h))
take-all (suc n) [] h = refl
take-all (suc n) (x ∷ xs) h = ap (λ r. x ∷ r) (take-all n xs (omega (arith, h)))

-- A prefix and a number fit into the buffer.
prefix-AreNames :
    (format_id : ℕ → List ℕ) (prefix : List ℕ)
    → IsFormat format_id
    → length prefix ≤ 47
    → AreNames (λ n. copy_string 64 (prefix ++ format_id n))
prefix-AreNames format_id prefix v short a b a_small b_small e =
    let whole : (n : ℕ)
        → n < 2 ^ 64
        → copy_string 64 (prefix ++ format_id n) ≡ prefix ++ format_id n =
      λ n small.
        take-all 63 (prefix ++ format_id n)
          (omega (arith, length-append prefix (format_id n), v.digits n small)) in
    v.differ a b a_small b_small (
      append_cancel_left prefix (format_id a) (format_id b)
        (sym (whole a a_small) ∙ e ∙ whole b b_small))

pub sandbox_id_of-AreNames :
    (format_id : ℕ → List ℕ) → IsFormat format_id → AreNames (sandbox_id_of format_id)
sandbox_id_of-AreNames format_id v =
    prefix-AreNames format_id (codes "carrels-sandbox-") v (omega arith)

pub container_id_of-AreNames :
    (format_id : ℕ → List ℕ) → IsFormat format_id → AreNames (container_id_of format_id)
container_id_of-AreNames format_id v =
    prefix-AreNames format_id (codes "carrels-container-") v (omega arith)
