-- ===== src/Delegation/Layout.antt =====
-- What a delegation file that `dlg_parse` accepts looks like.
use carrels.Base.{
  ℕ, zero, suc, ◌+◌, ◌*◌, ◌≤◌, ◌<◌, ◌≡◌, refl, ap, sym, ◌∙◌, Bool, true, false, Option, none, some,
  List, [], ◌∷◌, arith, length, get_elem?, ◌↔◌, Memory, read_u32, matches,
}
use carrels.Delegation.{
  DlgHeader, dlg_parse, dlg_checked, parse_delegators, with_delegator, dlg_magic,
  delegator_record_size, delegator_resource_count, dlg_delegator_resource,
}

-- The records stand one behind the other from `p` to `q`, each as long as its resource count says,
-- and none reaches past the limit.
abbrev pub Chain : Memory → ℕ → ℕ → List ℕ → ℕ → Type 0
Chain mem limit p [] q = p ≡ q
Chain mem limit p (d ∷ ds) q =
    (d ≡ p)
    × (delegator_record_size mem d ≡ 16 + 22 * delegator_resource_count mem d)
    × (d + delegator_record_size mem d ≤ limit)
    × Chain mem limit (d + delegator_record_size mem d) ds q

-- A header that describes the file at `start`.
pub record IsDlg (mem : Memory) (start : ℕ) (h : DlgHeader) : Type 0 where
  pub magic : matches mem start dlg_magic ≡ true
  pub count : h.delegator_count ≡ read_u32 mem (start + 8)
  pub total : h.total_size ≡ read_u32 mem (start + 12)
  pub few : h.delegator_count ≤ 16
  pub header_fits : 16 ≤ h.total_size
  pub counted : length h.delegators ≡ h.delegator_count
  pub chained : Chain mem (start + h.total_size) (start + 16) h.delegators (start + h.total_size)

-- What one call of the loop returns.
abbrev Parsed : Memory → ℕ → ℕ → ℕ → Option (List ℕ × ℕ) → Type 0
Parsed mem limit n p none = Unit {0}
Parsed mem limit n p (some (ds, q)) = (length ds ≡ n) × Chain mem limit p ds q

with_delegator-Parsed :
    (mem : Memory) (limit n p : ℕ) (o : Option (List ℕ × ℕ))
    → delegator_record_size mem p ≡ 16 + 22 * delegator_resource_count mem p
    → p + delegator_record_size mem p ≤ limit
    → Parsed mem limit n (p + delegator_record_size mem p) o
    → Parsed mem limit (suc n) p (with_delegator p o)
with_delegator-Parsed mem limit n p none e h r = tt
with_delegator-Parsed mem limit n p (some (ds, q)) e h r = (ap suc r.0, (refl, e, h, r.1))

parse_delegators-Parsed :
    (mem : Memory) (limit n p : ℕ) → Parsed mem limit n p (parse_delegators mem limit n p)
unfolding parse_delegators
parse_delegators-Parsed mem limit zero p = (refl, refl)
parse_delegators-Parsed mem limit (suc n) p = ground (
  arith,
  with_delegator-Parsed mem limit n p
      (parse_delegators mem limit n (p + delegator_record_size mem p)),
  parse_delegators-Parsed mem limit n (p + delegator_record_size mem p),
)

parse_delegators-Chain :
    (mem : Memory) (limit p : ℕ) (ds : List ℕ) (q : ℕ)
    → Chain mem limit p ds q
    → parse_delegators mem limit (length ds) p ≡ some (ds, q)
unfolding parse_delegators
parse_delegators-Chain mem limit p [] q c = ground arith
parse_delegators-Chain mem limit p (d ∷ ds) q (e, size, fits, c) =
    ground (arith, parse_delegators-Chain mem limit (d + delegator_record_size mem d) ds q c)

-- The tests on the header, over any outcome of the loop.
dlg_checked-some :
    (magic : Bool) (count total limit : ℕ) (o : Option (List ℕ × ℕ)) (h : DlgHeader)
    → dlg_checked magic count total limit o ≡ some h
    → (magic ≡ true)
      × (h.delegator_count ≡ count)
      × (h.total_size ≡ total)
      × (count ≤ 16)
      × (16 ≤ total)
      × (o ≡ some (h.delegators, limit))
dlg_checked-some false count total limit o h e = cc
dlg_checked-some true count total limit none h e = ground arith
dlg_checked-some true count total limit (some (ds, q)) h e = ground arith

some-dlg_checked :
    (magic : Bool) (count total limit : ℕ) (o : Option (List ℕ × ℕ)) (h : DlgHeader)
    → magic ≡ true
    → h.delegator_count ≡ count
    → h.total_size ≡ total
    → count ≤ 16
    → 16 ≤ total
    → o ≡ some (h.delegators, limit)
    → dlg_checked magic count total limit o ≡ some h
some-dlg_checked magic count total limit o h m c t few fits e = rw (e, m) (ground arith)

Parsed-some :
    (mem : Memory) (limit n p : ℕ) (o : Option (List ℕ × ℕ)) (ds : List ℕ) (q : ℕ)
    → o ≡ some (ds, q)
    → Parsed mem limit n p o
    → (length ds ≡ n) × Chain mem limit p ds q
Parsed-some mem limit n p o ds q e r = rw e at r

abbrev loop_result : Memory → ℕ → Option (List ℕ × ℕ)
loop_result mem start =
    parse_delegators mem (start + read_u32 mem (start + 12)) (read_u32 mem (start + 8)) (start + 16)

dlg_parse_lem :
    (mem : Memory) (start : ℕ)
    → dlg_parse mem start
      ≡ dlg_checked
          (matches mem start dlg_magic)
          (read_u32 mem (start + 8))
          (read_u32 mem (start + 12))
          (start + read_u32 mem (start + 12))
          (loop_result mem start)
unfolding dlg_parse
dlg_parse_lem mem start = refl

dlg_parse-IsDlg :
    (mem : Memory) (start : ℕ) (h : DlgHeader) → dlg_parse mem start ≡ some h → IsDlg mem start h
dlg_parse-IsDlg mem start h e =
    let (m, c, t, few, fits, parsed) =
      dlg_checked-some _ _ _ _ (loop_result mem start) h (sym (dlg_parse_lem mem start) ∙ e) in
    let (counted, chained) =
      Parsed-some mem _ _ _ (loop_result mem start) h.delegators _ parsed
        (parse_delegators-Parsed mem _ _ _) in
    record {
      magic = m;
      count = c;
      total = t;
      few = omega arith;
      header_fits = omega arith;
      counted = counted ∙ sym c;
      chained = rw t chained;
    }

IsDlg-dlg_parse :
    (mem : Memory) (start : ℕ) (h : DlgHeader) → IsDlg mem start h → dlg_parse mem start ≡ some h
IsDlg-dlg_parse mem start h v =
    dlg_parse_lem mem start
    ∙ some-dlg_checked _ _ _ _ (loop_result mem start) h v.magic v.count v.total
        (omega (arith, v.few, v.count)) (omega (arith, v.header_fits, v.total))
        (rw (← v.count, ← v.counted, ← v.total)
          (parse_delegators-Chain mem _ _ h.delegators _ v.chained))

-- `dlg_parse` accepts a file and returns a header exactly when the header describes the file.
pub dlg_parse_iff :
    (mem : Memory) (start : ℕ) (h : DlgHeader) → (dlg_parse mem start ≡ some h) ↔ IsDlg mem start h
dlg_parse_iff mem start h = (dlg_parse-IsDlg mem start h, IsDlg-dlg_parse mem start h)

Chain-le : (mem : Memory) (limit p : ℕ) (ds : List ℕ) (q : ℕ) → Chain mem limit p ds q → p ≤ q
Chain-le mem limit p [] q c = omega arith
Chain-le mem limit p (x ∷ ds) q (e, size, fits, c) =
    omega (arith, Chain-le mem limit (x + delegator_record_size mem x) ds q c)

Chain-get :
    (mem : Memory) (limit p : ℕ) (ds : List ℕ) (q : ℕ)
    → Chain mem limit p ds q
    → (i d : ℕ) → get_elem? ds i ≡ some d
    → (p ≤ d)
      × (d + delegator_record_size mem d ≤ q)
      × (delegator_record_size mem d ≡ 16 + 22 * delegator_resource_count mem d)
Chain-get mem limit p [] q c i d h = cc
Chain-get mem limit p (x ∷ ds) q (e, size, fits, c) zero d h =
    ground (arith, Chain-le mem limit (x + delegator_record_size mem x) ds q c)
Chain-get mem limit p (x ∷ ds) q (e, size, fits, c) (suc i) d h =
    ground (arith, Chain-get mem limit (x + delegator_record_size mem x) ds q c i d h)

Chain-disjoint :
    (mem : Memory) (limit p : ℕ) (ds : List ℕ) (q : ℕ)
    → Chain mem limit p ds q
    → (i j d e : ℕ) → i < j
    → get_elem? ds i ≡ some d
    → get_elem? ds j ≡ some e
    → d + delegator_record_size mem d ≤ e
Chain-disjoint mem limit p [] q c i j d e lt f g = cc
Chain-disjoint mem limit p (x ∷ ds) q c i zero d e lt f g = absurd (omega arith)
Chain-disjoint mem limit p (x ∷ ds) q (x_at, size, fits, c) zero (suc j) d e lt f g =
    ground (arith, Chain-get mem limit (x + delegator_record_size mem x) ds q c j e g)
Chain-disjoint mem limit p (x ∷ ds) q (x_at, size, fits, c) (suc i) (suc j) d e lt f g =
    Chain-disjoint mem limit (x + delegator_record_size mem x) ds q c i j d e (omega arith) f g

-- Every resource of every delegator of an accepted file lies between the header and the end of the
-- file, and behind the delegator that owns it.
pub dlg_delegator_resource-in_file :
    (mem : Memory) (start : ℕ) (h : DlgHeader) (i d index r : ℕ)
    → dlg_parse mem start ≡ some h
    → get_elem? h.delegators i ≡ some d
    → dlg_delegator_resource mem d index ≡ some r
    → (start + 16 ≤ d) × (d + 16 ≤ r) × (r + 22 ≤ start + h.total_size)
unfolding dlg_delegator_resource
dlg_delegator_resource-in_file mem start h i d index r e g f =
    let v = dlg_parse-IsDlg mem start h e in
    let (low, high, size) = Chain-get mem _ _ h.delegators _ v.chained i d g in ground arith

-- Of two delegators of an accepted file the earlier one ends where the later one begins, or before:
-- no two records overlap.
pub delegators_disjoint :
    (mem : Memory) (start : ℕ) (h : DlgHeader) (i j d e : ℕ)
    → dlg_parse mem start ≡ some h
    → i < j
    → get_elem? h.delegators i ≡ some d
    → get_elem? h.delegators j ≡ some e
    → d + delegator_record_size mem d ≤ e
delegators_disjoint mem start h i j d e p lt f g =
    Chain-disjoint mem _ _ h.delegators _ (dlg_parse-IsDlg mem start h p).chained i j d e lt f g
