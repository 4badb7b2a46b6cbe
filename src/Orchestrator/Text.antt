-- ===== src/Orchestrator/Text.antt =====
-- The shell's arguments in src/orchestrator/orchestrator.c: numbers and lists of peers. A string is the
-- list of its characters without the terminator.
pub mod Numbers
pub mod Ports
use carrels.Base.{
  codes, same_text, starts_with, ℕ, zero, suc, ◌+◌, ◌-◌, ◌*◌, ◌/◌, ◌%◌, ◌^◌, if◌then◌else◌, Bool,
  true, false, not, ◌&&◌, ◌||◌, ◌==◌, Option, none, some, List, [], ◌∷◌, ltb, leb, set_bit, ◌>>=◌,
  ◌>>◌, assert,
}

abbrev pub uint32_max : ℕ
uint32_max = 2 ^ 32 - 1

abbrev pub is_digit : ℕ → Bool
is_digit c = leb 48 c && leb c 57

-- `value > (UINT32_MAX - digit) / 10U`.
abbrev pub overflows : ℕ → ℕ → Bool
overflows value c = ltb ((uint32_max - (c - 48)) / 10) value

abbrev pub add_digit : ℕ → ℕ → ℕ
add_digit value c = value * 10 + (c - 48)

-- The loop over the characters.
unfoldable pub parse_digits : List ℕ → ℕ → Option ℕ
parse_digits [] value = some value
parse_digits (c ∷ cs) value =
    let rest = parse_digits cs (add_digit value c) in
    if not (is_digit c) || overflows value c then none else rest

-- `none` is `false`.
unfoldable pub parse_u32_decimal : List ℕ → Option ℕ
parse_u32_decimal [] = none
parse_u32_decimal (c ∷ cs) = parse_digits (c ∷ cs) 0

-- What ends a port: it has a digit, there is such a port, and it is not the target's.
abbrev pub is_port : ℕ → ℕ → ℕ → Bool → Bool
is_port ports target port has_digit = has_digit && ltb port ports && not (port == target)

abbrev pub nothing_left : List ℕ → Bool
nothing_left [] = true
nothing_left _ = false

-- The two loops as one over the characters: `port` and `has_digit` are the inner loop's. A comma
-- (44) must have a port before it and something behind it.
unfoldable pub parse_ports : ℕ → ℕ → List ℕ → ℕ → Bool → ℕ → Option ℕ
parse_ports ports target [] port has_digit mask =
    if is_port ports target port has_digit then some (set_bit mask port) else none
parse_ports ports target (c ∷ cs) port has_digit mask =
    let same = parse_ports ports target cs (add_digit port c) true mask in
    let next = parse_ports ports target cs 0 false (set_bit mask port) in
    if is_digit c
    then if overflows port c then none else same
    else if not (is_port ports target port has_digit) || not (c == 44) || nothing_left cs
    then none
    else next

abbrev pub all_text : List ℕ
all_text = codes "all"

-- The mask and whether all peers are meant; an empty text names no peer.
unfoldable pub parse_peer_ports : ℕ → List ℕ → ℕ → Option (ℕ × Bool)
parse_peer_ports ports text target =
    if same_text text all_text
    then some (0, true)
    else if nothing_left text
    then some (0, false)
    else parse_ports ports target text 0 false 0 >>= λ mask. some (mask, false)
