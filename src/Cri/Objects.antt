-- ===== src/Cri/Objects.antt =====
-- The objects of src/orchestrator/cri_runtime.c and the tables that hold them.
pub mod View
use carrels.Base.{
  first_from, ℕ, zero, suc, ◌+◌, ◌-◌, ◌^◌, if◌then◌else◌, Bool, true, false, not, ◌&&◌, Option,
  none, some, List, [], ◌∷◌, ◌++◌, leb, update, codes, same_text, starts_with, copy_string, Memory,
  byte, read_u32, read_u64,
}

-- The fields that the runtime hands back as it got them.
pub record Passed : Type 0 where
  pub attempt : ℕ
  pub ipc_ns : ℕ
  pub pid_ns : ℕ
  pub name : List ℕ
  pub namespace_ : List ℕ
  pub uid : List ℕ
  pub labels : List ℕ
  pub annotations : List ℕ
  pub runtime_handler : List ℕ
  pub log_dir : List ℕ
  pub sandbox_id : List ℕ
  pub log_path : List ℕ

-- `struct cri_object`. A text is what stands in front of its terminator; `present` is 0 or 1.
pub record CriObject : Type 0 where
  pub cursor : ℕ
  pub present : Bool
  pub state : ℕ
  pub exit_code : ℕ
  pub network_ns : ℕ
  pub created_at : ℕ
  pub started_at : ℕ
  pub finished_at : ℕ
  pub id : List ℕ
  pub image : List ℕ
  pub image_ref : List ℕ
  pub reason : List ℕ
  pub ip : List ℕ
  pub passed : Passed

-- `memset(o, 0, sizeof(*o))`.
abbrev pub zero_object : CriObject
zero_object = record {
  cursor = 0;
  present = false;
  state = 0;
  exit_code = 0;
  network_ns = 0;
  created_at = 0;
  started_at = 0;
  finished_at = 0;
  id = [];
  image = [];
  image_ref = [];
  reason = [];
  ip = [];
  passed = record {
    attempt = 0;
    ipc_ns = 0;
    pid_ns = 0;
    name = [];
    namespace_ = [];
    uid = [];
    labels = [];
    annotations = [];
    runtime_handler = [];
    log_dir = [];
    sandbox_id = [];
    log_path = [];
  };
}

abbrev pub cri_max_objects : ℕ
cri_max_objects = 32

abbrev pub Table : Type 0
Table = ℕ → CriObject

-- The first of `n` places from `i` on whose object passes the test.
abbrev pub first_object : (CriObject → Bool) → Table → ℕ → ℕ → Option ℕ
first_object test table = first_from (λ j. test (table j))

abbrev pub has_id : List ℕ → CriObject → Bool
has_id id o = o.present && same_text o.id id

unfoldable pub find : Table → List ℕ → Option ℕ
find table id = first_object (has_id id) table cri_max_objects 0

abbrev pub has_image : List ℕ → CriObject → Bool
has_image image o = o.present && same_text o.image image

-- The loops over `images` that look for an image's name.
unfoldable pub find_image : Table → List ℕ → Option ℕ
find_image table image = first_object (has_image image) table cri_max_objects 0

abbrev pub is_free : CriObject → Bool
is_free o = not o.present

-- The place, and the table with a cleared object there.
unfoldable pub allocate : Table → Option (ℕ × Table)
allocate table = elim (first_object is_free table cri_max_objects 0) [
  | none ↦ none
  | some i ↦ some (i, update table i (record zero_object { present = true }))
]

abbrev pub is_present : CriObject → Bool
is_present o = o.present

-- The response of a list: the next object from the cursor on, or none and the last cursor.
abbrev pub listed_as : Table → Option ℕ → CriObject
listed_as table none = record zero_object { cursor = cri_max_objects }
listed_as table (some i) = record (table i) { cursor = i + 1 }

unfoldable pub list_one : Table → ℕ → CriObject
list_one table cursor =
    listed_as table (first_object is_present table (cri_max_objects - cursor) cursor)

abbrev pub carrels_image_scheme : List ℕ
carrels_image_scheme = codes "carrels-image://"

unfoldable pub set_image_ref : CriObject → CriObject
set_image_ref o = record o {
  image_ref =
      if starts_with carrels_image_scheme o.image
      then copy_string 256 o.image
      else copy_string 256 (carrels_image_scheme ++ o.image);
}

-- The text in a buffer of `n` bytes.
unfoldable pub text_at : Memory → ℕ → ℕ → List ℕ
unfolding byte
text_at mem p zero = []
text_at mem p (suc n) =
    let rest = text_at mem (p + 1) n in elim (byte mem p) [ zero ↦ [] | suc c ↦ suc c ∷ rest ]

-- All the bytes of a buffer.
unfoldable pub bytes_of : Memory → ℕ → ℕ → List ℕ
unfolding byte
bytes_of mem p zero = []
bytes_of mem p (suc n) = byte mem p ∷ bytes_of mem (p + 1) n

abbrev pub nonzero : ℕ → Bool
nonzero zero = false
nonzero (suc n) = true

-- The packed struct in memory.
unfoldable pub read_object : Memory → ℕ → CriObject
read_object mem p = record {
  cursor = read_u32 mem p;
  present = nonzero (read_u32 mem (p + 4));
  state = read_u32 mem (p + 12);
  exit_code = read_u32 mem (p + 16);
  network_ns = read_u32 mem (p + 20);
  created_at = read_u64 mem (p + 32);
  started_at = read_u64 mem (p + 40);
  finished_at = read_u64 mem (p + 48);
  id = text_at mem (p + 56) 64;
  image = text_at mem (p + 1720) 256;
  image_ref = text_at mem (p + 1976) 256;
  reason = text_at mem (p + 2424) 64;
  ip = text_at mem (p + 2488) 48;
  passed = record {
    attempt = read_u32 mem (p + 8);
    ipc_ns = read_u32 mem (p + 24);
    pid_ns = read_u32 mem (p + 28);
    name = text_at mem (p + 120) 128;
    namespace_ = text_at mem (p + 248) 64;
    uid = text_at mem (p + 312) 64;
    labels = bytes_of mem (p + 376) 512;
    annotations = bytes_of mem (p + 888) 512;
    runtime_handler = text_at mem (p + 1400) 64;
    log_dir = text_at mem (p + 1464) 192;
    sandbox_id = text_at mem (p + 1656) 64;
    log_path = text_at mem (p + 2232) 192;
  };
}

-- Its size.
abbrev pub cri_object_size : ℕ
cri_object_size = 2536
