-- ===== src/ServiceDb/Layout.antt =====
-- What a service database that `svc_parse` accepts looks like.
use carrels.Base.{
  ℕ, zero, suc, ◌+◌, ◌*◌, ◌%◌, ◌^◌, ◌≤◌, ◌<◌, ◌≡◌, refl, sym, ◌∙◌, ap, ◌↔◌, Bool, true, false,
  Option, none, some, List, [], ◌∷◌, arith, length, get_elem?, Memory, byte, read_u16, read_u32,
  matches,
}
use carrels.ServiceDb.{
  SvcDb, svc_parse, svc_checked, parse_services, with_service, svc_magic, service_record_size,
  service_resource_count, service_path_len,
}

-- What a record declares: its header, its resources and its path.
abbrev pub declared_size : Memory → ℕ → ℕ
declared_size mem s = 22 + 9 * service_resource_count mem s + service_path_len mem s

-- The records stand one behind the other from `p` to `q`; each is as long as it declares, modulo
-- 2 ^ 32, and neither it nor its header reaches past the limit.
abbrev pub Chain : Memory → ℕ → ℕ → List ℕ → ℕ → Type 0
Chain mem limit p [] q = p ≡ q
Chain mem limit p (s ∷ ss) q =
    (s ≡ p)
    × (service_record_size mem s ≡ declared_size mem s % 2 ^ 32)
    × (s + 22 ≤ limit)
    × (s + service_record_size mem s ≤ limit)
    × Chain mem limit (s + service_record_size mem s) ss q

pub record IsSvc (mem : Memory) (start : ℕ) (h : SvcDb) : Type 0 where
  pub magic : matches mem start svc_magic ≡ true
  pub version_read : h.version ≡ read_u16 mem (start + 8)
  pub version_one : h.version ≡ 1
  pub count : h.service_count ≡ read_u32 mem (start + 12)
  pub total : h.total_size ≡ read_u32 mem (start + 16)
  pub few : h.service_count ≤ 64
  pub header_fits : 20 ≤ h.total_size
  pub counted : length h.services ≡ h.service_count
  pub chained : Chain mem (start + h.total_size) (start + 20) h.services (start + h.total_size)

-- What one call of the loop returns.
abbrev Parsed : Memory → ℕ → ℕ → ℕ → Option (List ℕ × ℕ) → Type 0
Parsed mem limit n p none = Unit {0}
Parsed mem limit n p (some (ss, q)) = (length ss ≡ n) × Chain mem limit p ss q

with_service-Parsed :
    (mem : Memory) (limit n p : ℕ) (o : Option (List ℕ × ℕ))
    → service_record_size mem p ≡ declared_size mem p % 2 ^ 32
    → p + 22 ≤ limit
    → p + service_record_size mem p ≤ limit
    → Parsed mem limit n (p + service_record_size mem p) o
    → Parsed mem limit (suc n) p (with_service p o)
with_service-Parsed mem limit n p none e l h r = tt
with_service-Parsed mem limit n p (some (ss, q)) e l h r = (ap suc r.0, (refl, e, l, h, r.1))

parse_services-Parsed :
    (mem : Memory) (limit n p : ℕ) → Parsed mem limit n p (parse_services mem limit n p)
unfolding parse_services
parse_services-Parsed mem limit zero p = (refl, refl)
parse_services-Parsed mem limit (suc n) p = ground (
  arith,
  with_service-Parsed mem limit n p (parse_services mem limit n (p + service_record_size mem p)),
  parse_services-Parsed mem limit n (p + service_record_size mem p),
)

parse_services-Chain :
    (mem : Memory) (limit p : ℕ) (ss : List ℕ) (q : ℕ)
    → Chain mem limit p ss q
    → parse_services mem limit (length ss) p ≡ some (ss, q)
unfolding parse_services
parse_services-Chain mem limit p [] q c = ground arith
parse_services-Chain mem limit p (s ∷ ss) q (e, size, head, fits, c) =
    ground (arith, parse_services-Chain mem limit (s + service_record_size mem s) ss q c)

svc_checked-some :
    (magic : Bool) (version count total limit : ℕ) (o : Option (List ℕ × ℕ)) (h : SvcDb)
    → svc_checked magic version count total limit o ≡ some h
    → (magic ≡ true)
      × (h.version ≡ version)
      × (version ≡ 1)
      × (h.service_count ≡ count)
      × (h.total_size ≡ total)
      × (count ≤ 64)
      × (20 ≤ total)
      × (o ≡ some (h.services, limit))
svc_checked-some false version count total limit o h e = cc
svc_checked-some true version count total limit none h e = ground arith
svc_checked-some true version count total limit (some (ss, q)) h e = ground arith

some-svc_checked :
    (magic : Bool) (version count total limit : ℕ) (o : Option (List ℕ × ℕ)) (h : SvcDb)
    → magic ≡ true
    → h.version ≡ version
    → h.version ≡ 1
    → h.service_count ≡ count
    → h.total_size ≡ total
    → count ≤ 64
    → 20 ≤ total
    → o ≡ some (h.services, limit)
    → svc_checked magic version count total limit o ≡ some h
some-svc_checked magic version count total limit o h m v one c t few fits e =
    rw (e, m) (ground arith)

abbrev loop_result : Memory → ℕ → Option (List ℕ × ℕ)
loop_result mem start =
    parse_services mem (start + read_u32 mem (start + 16)) (read_u32 mem (start + 12)) (start + 20)

svc_parse_lem :
    (mem : Memory) (start : ℕ)
    → svc_parse mem start
      ≡ svc_checked
          (matches mem start svc_magic)
          (read_u16 mem (start + 8))
          (read_u32 mem (start + 12))
          (read_u32 mem (start + 16))
          (start + read_u32 mem (start + 16))
          (loop_result mem start)
unfolding svc_parse
svc_parse_lem mem start = refl

Parsed-some :
    (mem : Memory) (limit n p : ℕ) (o : Option (List ℕ × ℕ)) (ss : List ℕ) (q : ℕ)
    → o ≡ some (ss, q)
    → Parsed mem limit n p o
    → (length ss ≡ n) × Chain mem limit p ss q
Parsed-some mem limit n p o ss q e r = rw e at r

svc_parse-IsSvc :
    (mem : Memory) (start : ℕ) (h : SvcDb) → svc_parse mem start ≡ some h → IsSvc mem start h
svc_parse-IsSvc mem start h e =
    let (m, v, one, c, t, few, fits, parsed) =
      svc_checked-some _ _ _ _ _ (loop_result mem start) h (sym (svc_parse_lem mem start) ∙ e) in
    let (counted, chained) =
      Parsed-some mem _ _ _ (loop_result mem start) h.services _ parsed
        (parse_services-Parsed mem _ _ _) in
    record {
      magic = m;
      version_read = v;
      version_one = v ∙ one;
      count = c;
      total = t;
      few = omega arith;
      header_fits = omega arith;
      counted = counted ∙ sym c;
      chained = rw t chained;
    }

IsSvc-svc_parse :
    (mem : Memory) (start : ℕ) (h : SvcDb) → IsSvc mem start h → svc_parse mem start ≡ some h
IsSvc-svc_parse mem start h v =
    svc_parse_lem mem start
    ∙ some-svc_checked _ _ _ _ _ (loop_result mem start) h v.magic v.version_read v.version_one
        v.count v.total (omega (arith, v.few, v.count)) (omega (arith, v.header_fits, v.total))
        (rw (← v.count, ← v.counted, ← v.total)
          (parse_services-Chain mem _ _ h.services _ v.chained))

-- `svc_parse` accepts a file and returns a database exactly when the database describes the file.
pub svc_parse_iff :
    (mem : Memory) (start : ℕ) (h : SvcDb) → (svc_parse mem start ≡ some h) ↔ IsSvc mem start h
svc_parse_iff mem start h = (svc_parse-IsSvc mem start h, IsSvc-svc_parse mem start h)

Chain-le : (mem : Memory) (limit p : ℕ) (ss : List ℕ) (q : ℕ) → Chain mem limit p ss q → p ≤ q
Chain-le mem limit p [] q c = omega arith
Chain-le mem limit p (s ∷ ss) q (e, size, head, fits, c) =
    omega (arith, Chain-le mem limit (s + service_record_size mem s) ss q c)

Chain-get :
    (mem : Memory) (limit p : ℕ) (ss : List ℕ) (q : ℕ)
    → Chain mem limit p ss q
    → (i s : ℕ) → get_elem? ss i ≡ some s
    → (p ≤ s)
      × (s + service_record_size mem s ≤ q)
      × (service_record_size mem s ≡ declared_size mem s % 2 ^ 32)
Chain-get mem limit p [] q c i s h = cc
Chain-get mem limit p (x ∷ ss) q (e, size, head, fits, c) zero s h =
    ground (arith, Chain-le mem limit (x + service_record_size mem x) ss q c)
Chain-get mem limit p (x ∷ ss) q (e, size, head, fits, c) (suc i) s h =
    ground (arith, Chain-get mem limit (x + service_record_size mem x) ss q c i s h)

read_u32-lt : (mem : Memory) (p : ℕ) → read_u32 mem p < 2 ^ 32
unfolding read_u32 byte
read_u32-lt mem p = omega arith

-- A record of an accepted database lies inside the file with all that it declares exactly when its
-- declared size does not wrap around in `uint32_t`: the parser does not notice a size that wraps.
pub service_in_file_iff :
    (mem : Memory) (start : ℕ) (h : SvcDb) (i s : ℕ)
    → svc_parse mem start ≡ some h
    → get_elem? h.services i ≡ some s
    → (s + declared_size mem s ≤ start + h.total_size) ↔ (declared_size mem s < 2 ^ 32)
service_in_file_iff mem start h i s e g =
    let v = svc_parse-IsSvc mem start h e in
    let (low, high, size) = Chain-get mem _ _ h.services _ v.chained i s g in
    let small = read_u32-lt mem (start + 16) in
    (λ inside. omega (arith, v.total), λ fits. omega arith)
