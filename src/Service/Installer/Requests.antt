-- ===== src/Service/Installer/Requests.antt =====
-- The channels and mappings that the installer lists for the loader.
use carrels.Base.{
  ℕ, zero, suc, ◌+◌, ◌≤◌, ◌≡◌, sym, ◌∙◌, ap, subst, inl, inr, Bool, none, some, List, [], ◌∷◌, ◌++◌,
  arith, length, length-append, take, take-all, take-append_left, take-take_append, length-take-le,
  leb, Bool-cases, Option-cases, ◌==◌, if◌then◌else◌, Memory,
}
use mathlib.Core.List.{append-nil, append_assoc}
use carrels.ServiceDb.{service_resource_count, svc_service_resource}
use carrels.Service.Installer.{
  XrtReq, push_bounded, append_resource, append_from, service_installer_append_acrtreq,
  resource_kind, resource_value,
}

push_bounded-take :
    (xs : List ℕ) (v : ℕ) → length xs ≤ 64 → push_bounded xs v ≡ take 64 (xs ++ v ∷ [])
push_bounded-take xs v small = elim (Bool-cases (leb 64 (length xs))) [
  | inl full ↦
      rw full (sym (take-append_left 64 xs (v ∷ []) (ground arith) ∙ take-all 64 xs (ground arith)))
  | inr room ↦
      rw room (sym (take-all 64 (xs ++ v ∷ []) (ground (arith, length-append xs (v ∷ [])))))
]

-- The values of the resources of one kind, `n` of them from index `i` on.
abbrev pub values : Memory → ℕ → ℕ → ℕ → ℕ → List ℕ
values mem svc kind zero i = []
values mem svc kind (suc n) i = elim (svc_service_resource mem svc i) [
  | none ↦ []
  | some r ↦
      (if resource_kind mem r == kind then resource_value mem r ∷ [] else [])
      ++ values mem svc kind n (i + 1)
]

-- The three lists, each with the kind of resource that goes to it.
pub data Request : Type 0 where
  notify ppc mapping : Request

abbrev pub kind_of : Request → ℕ
kind_of notify = 1
kind_of ppc = 2
kind_of mapping = 3

abbrev pub requested : Request → XrtReq → List ℕ
requested notify x = x.notifications
requested ppc x = x.ppcs
requested mapping x = x.mappings

abbrev one_if : Bool → ℕ → List ℕ
one_if b v = if b then v ∷ [] else []

kept : (xs : List ℕ) → length xs ≤ 64 → xs ≡ take 64 (xs ++ [])
kept xs small = rw append-nil (sym (take-all 64 xs small))

append_resource-requested :
    (k : Request) (x : XrtReq) (kind value : ℕ)
    → length (requested k x) ≤ 64
    → requested k (append_resource x kind value)
      ≡ take 64 (requested k x ++ one_if (kind == kind_of k) value)
unfolding append_resource
append_resource-requested notify x kind value small =
    ground (arith, push_bounded-take x.notifications value small, kept x.notifications small)
append_resource-requested ppc x kind value small =
    ground (arith, push_bounded-take x.ppcs value small, kept x.ppcs small)
append_resource-requested mapping x kind value small =
    ground (arith, push_bounded-take x.mappings value small, kept x.mappings small)

append_from-requested :
    (mem : Memory) (svc : ℕ) (k : Request) (n i : ℕ) (x : XrtReq)
    → length (requested k x) ≤ 64
    → requested k (append_from mem svc n i x)
      ≡ take 64 (requested k x ++ values mem svc (kind_of k) n i)
unfolding append_from
append_from-requested mem svc k zero i x small = kept (requested k x) small
append_from-requested mem svc k (suc n) i x small =
    elim (Option-cases (svc_service_resource mem svc i)) [
      | inl missing ↦ rw (missing, append_from, values) (kept (requested k x) small)
      | inr (r, found) ↦
          let value = resource_value mem r in
          let kind = resource_kind mem r in
          let one = append_resource-requested k x kind value small in
          let rest = values mem svc (kind_of k) n (i + 1) in
          let small' = length-take-le 64 (requested k x ++ one_if (kind == kind_of k) value) in
          rw (found, append_from, values)
            (append_from-requested mem svc k n (i + 1) (append_resource x kind value)
                (subst (λ l. length l ≤ 64) (sym one) small')
              ∙ ap (λ l. take 64 (l ++ rest)) one
              ∙ take-take_append 64 (requested k x ++ one_if (kind == kind_of k) value) rest
              ∙ ap (take 64) (append_assoc (requested k x) (one_if (kind == kind_of k) value) rest))
    ]

-- A service adds to each of the three lists, behind what is there, the values of its resources of
-- that list's kind, in order, as far as the 64 places go.
pub service_installer_append_acrtreq-requested :
    (mem : Memory) (x : XrtReq) (svc : ℕ) (k : Request)
    → length (requested k x) ≤ 64
    → requested k (service_installer_append_acrtreq mem x svc)
      ≡ take 64 (requested k x ++ values mem svc (kind_of k) (service_resource_count mem svc) 0)
unfolding service_installer_append_acrtreq
service_installer_append_acrtreq-requested mem x svc k =
    append_from-requested mem svc k (service_resource_count mem svc) 0 x
