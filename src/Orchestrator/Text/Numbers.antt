-- ===== src/Orchestrator/Text/Numbers.antt =====
-- The numbers that the shell accepts.
use carrels.Base.{
  ℕ, ◌+◌, ◌-◌, ◌*◌, ◌^◌, ◌≤◌, ◌<◌, ◌≡◌, ◌≢◌, refl, ◌∙◌, ap, ◌↔◌, inl, inr, true, false, Bool-cases,
  some, List, [], ◌∷◌, ltb, arith,
}
use carrels.Orchestrator.Text.{parse_u32_decimal, parse_digits, is_digit, overflows, add_digit}

-- The value of a decimal text behind the digits of `v`, without a bound.
abbrev pub value_from : ℕ → List ℕ → ℕ
value_from v [] = v
value_from v (c ∷ cs) = value_from (v * 10 + (c - 48)) cs

abbrev pub AllDigits : List ℕ → Type 0
AllDigits [] = Unit {0}
AllDigits (c ∷ cs) = (is_digit c ≡ true) × AllDigits cs

value_from-le : (cs : List ℕ) (v : ℕ) → v ≤ value_from v cs
value_from-le [] v = omega arith
value_from-le (c ∷ cs) v = omega (arith, value_from-le cs (v * 10 + (c - 48)))

overflows-ltb : (v c : ℕ) → is_digit c ≡ true → overflows v c ≡ ltb (2 ^ 32 - 1) (v * 10 + (c - 48))
overflows-ltb v c h = ground arith

pub parse_digits-Value :
    (cs : List ℕ) (v n : ℕ)
    → v < 2 ^ 32
    → parse_digits cs v ≡ some n
    → AllDigits cs × (value_from v cs ≡ n) × (n < 2 ^ 32)
unfolding parse_digits
parse_digits-Value [] v n small e = let same : v ≡ n = cc in (tt, same, omega arith)
parse_digits-Value (c ∷ cs) v n small e = elim (Bool-cases (is_digit c)) [
  | inl digit ↦ elim (Bool-cases (overflows v c)) [
    | inl over ↦ cc
    | inr fits ↦
        let (all, value, bound) =
          parse_digits-Value cs (add_digit v c) n (ground arith) (ground arith) in
        ((digit, all), value, bound)
  ]
  | inr other ↦ ground arith
]

Value-parse_digits :
    (cs : List ℕ) (v : ℕ)
    → AllDigits cs
    → value_from v cs < 2 ^ 32
    → parse_digits cs v ≡ some (value_from v cs)
unfolding parse_digits
Value-parse_digits [] v d small = refl
Value-parse_digits (c ∷ cs) v (d, ds) small =
    let le = value_from-le cs (v * 10 + (c - 48)) in
    let room : overflows v c ≡ false = ground arith in
    rw (d, room) (Value-parse_digits cs (v * 10 + (c - 48)) ds small)

-- `parse_u32_decimal` accepts exactly the texts of one digit or more whose value fits in 32 bits, and
-- returns that value.
pub parse_u32_decimal_iff :
    (text : List ℕ) (n : ℕ)
    → (parse_u32_decimal text ≡ some n)
      ↔ ((text ≢ []) × AllDigits text × (value_from 0 text ≡ n) × (n < 2 ^ 32))
unfolding parse_u32_decimal
parse_u32_decimal_iff [] n = (λ e. cc, λ v. absurd (v.0 refl))
parse_u32_decimal_iff (c ∷ cs) n = (
  λ e.
      let (all, value, bound) = parse_digits-Value (c ∷ cs) 0 n (omega arith) e in
      ((λ f. cc), all, value, bound),
  λ (ne, all, value, small).
      Value-parse_digits (c ∷ cs) 0 all (omega (arith, value, small)) ∙ ap some value,
)
