-- ===== src/Service/Manifest/Counts.antt =====
-- What `service_manifest_parse` makes of the entries of a manifest.
use carrels.Base.{
  ℕ, ◌+◌, ◌≤◌, ◌<◌, ◌≡◌, refl, sym, ◌∙◌, ap, subst, ◌==◌, if◌then◌else◌, true, Option, none, some,
  List, [], ◌∷◌, ◌++◌, arith, length, length-append, keep, Memory, Bool-cases, ltb, ◌>>=◌, inl, inr,
}
use mathlib.Core.List.{append_assoc, append-nil}
use carrels.Service.Types.{ManifestEntry, SvcReq, empty_req}
use carrels.Service.Manifest.{
  PayloadInfo, service_manifest_check_type, add_entry, parse_entry, parse_entries,
  service_manifest_parse, e_entry,
}

-- The entries whose type is supported.
abbrev pub supported : List ManifestEntry → List ManifestEntry
supported = keep (λ e. service_manifest_check_type e.type)

-- How many entries have the type.
abbrev pub count_type : ℕ → List ManifestEntry → ℕ
count_type t [] = 0
count_type t (e ∷ es) = (if e.type == t then 1 else 0) + count_type t es

pub count_type-append :
    (t : ℕ) (xs ys : List ManifestEntry)
    → count_type t (xs ++ ys) ≡ count_type t xs + count_type t ys
count_type-append t [] ys = omega arith
count_type-append t (e ∷ es) ys = omega (arith, count_type-append t es ys)

-- The counters agree with the entries, all of them supported, and fit the array.
pub record IsConsistent (r : SvcReq) : Type 0 where
  pub counted : r.service_count ≡ length r.service_entries
  pub per_type : (t : ℕ) → r.service_count_per_type t ≡ count_type t r.service_entries
  pub fits : r.service_count ≤ 16

empty_req-IsConsistent : IsConsistent empty_req
empty_req-IsConsistent = record { counted = refl; per_type = λ t. refl; fits = omega arith }

-- What one round does with an entry.
abbrev Round : ManifestEntry → SvcReq → Option SvcReq → Type 0
Round e r none = (16 ≤ r.service_count) × (service_manifest_check_type e.type ≡ true)
Round e r (some r') =
    (r'.service_entries ≡ r.service_entries ++ supported (e ∷ [])) × IsConsistent r'

add_entry-Round :
    (r : SvcReq) (e : ManifestEntry)
    → IsConsistent r
    → service_manifest_check_type e.type ≡ true
    → Round e r (add_entry r e)
unfolding add_entry
add_entry-Round r e v s = elim (Bool-cases (ltb r.service_count 16)) [
  | inl room ↦
      rw (room, s)
        (
          refl,
          record {
            counted = omega (arith, length-append r.service_entries (e ∷ []), v.counted);
            per_type =
                λ t. ground (arith, count_type-append t r.service_entries (e ∷ []), v.per_type t);
            fits = ground arith;
          },
        )
  | inr full ↦ rw full (ground arith, s)
]

parse_entry-Round : (r : SvcReq) (e : ManifestEntry) → IsConsistent r → Round e r (parse_entry r e)
unfolding parse_entry
parse_entry-Round r e v = elim (Bool-cases (service_manifest_check_type e.type)) [
  | inl s ↦ rw s (add_entry-Round r e v s)
  | inr s ↦ rw s (rw s (sym (append-nil r.service_entries)), v)
]

-- Either the entries fit the array, and the request lists exactly these, in order and counted by
-- type, or they do not, and the code writes out of bounds.
abbrev pub Outcome : List ManifestEntry → Option SvcReq → Type 0
Outcome all none = 16 < length all
Outcome all (some r) = (r.service_entries ≡ all) × IsConsistent r

supported-cons :
    (e : ManifestEntry) (es : List ManifestEntry)
    → supported (e ∷ es) ≡ supported (e ∷ []) ++ supported es
supported-cons e es = ground arith

-- One round, and the rest of the loop behind it.
Outcome-cons :
    (e : ManifestEntry) (es : List ManifestEntry) (r : SvcReq) (o : Option SvcReq)
    → IsConsistent r
    → Round e r o
    → ((r' : SvcReq)
        → IsConsistent r'
        → Outcome (r'.service_entries ++ supported es) (parse_entries es r'))
    → Outcome (r.service_entries ++ supported (e ∷ es)) (o >>= parse_entries es)
Outcome-cons e es r none v (full, s) ih =
    rw s (omega (arith, length-append r.service_entries (e ∷ supported es), v.counted))
Outcome-cons e es r (some r') v (added, v') ih =
    subst (λ l. Outcome l (parse_entries es r'))
      (ap (λ l. l ++ supported es) added
        ∙ append_assoc r.service_entries (supported (e ∷ [])) (supported es)
        ∙ ap (λ l. r.service_entries ++ l) (sym (supported-cons e es)))
      (ih r' v')

parse_entries-Outcome :
    (es : List ManifestEntry) (r : SvcReq)
    → IsConsistent r
    → Outcome (r.service_entries ++ supported es) (parse_entries es r)
unfolding parse_entries
parse_entries-Outcome [] r v = rw append-nil (refl, v)
parse_entries-Outcome (e ∷ es) r v =
    Outcome-cons e es r _ v (parse_entry-Round r e v) (λ r' v'. parse_entries-Outcome es r' v')

with_entry-Outcome :
    (entry : ℕ) (all : List ManifestEntry) (o : Option SvcReq)
    → Outcome all o
    → Outcome all (o >>= λ r. some (record r { payload_e_entry = entry }))
with_entry-Outcome entry all none h = h
with_entry-Outcome entry all (some r) (e, v) =
    (e, record { counted = v.counted; per_type = v.per_type; fits = v.fits })

-- From an empty request `service_manifest_parse` lists the supported entries, in order, with
-- counters that agree with them, if there are at most 16; with more it writes past the array.
pub service_manifest_parse-Outcome :
    (mem : Memory) (info : PayloadInfo)
    → Outcome (supported info.service_entries) (service_manifest_parse mem info empty_req)
unfolding service_manifest_parse
service_manifest_parse-Outcome mem info =
    with_entry-Outcome (e_entry mem info.header_payload) (supported info.service_entries)
      (parse_entries info.service_entries empty_req)
      (parse_entries-Outcome info.service_entries empty_req empty_req-IsConsistent)
