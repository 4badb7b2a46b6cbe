-- ===== src/Monitor/Init/Storage.antt =====
-- src/monitor/init/minit.c: the data files are read and parsed before the monitor's state is set up.
-- `none` is a crash or an endless loop, with which the source answers every error here.
use carrels.Base.{
  ℕ, ◌+◌, ◌-◌, ◌==◌, if◌then◌else◌, Bool, not, ◌&&◌, Option, some, List, [], ◌++◌, length, ltb, leb,
  get_or, codes, copy_string, Memory, ◌>>=◌, ◌>>◌, assert,
}
use carrels.Delegation.{DlgHeader, dlg_parse}
use carrels.ServiceDb.{SvcDb, svc_parse}
use carrels.Fs.{FsCmpl, FsClient}
use carrels.Vfs.{FsProtocol, run_command, succeeded, pico_vfs_readfile2buf}
use carrels.Monitor.State.{Monitor, Env}
use carrels.Monitor.Init.{ca_monitor_init_states}

-- The bytes of a file in the buffer at an address.
unfoldable pub put_file : Memory → ℕ → List ℕ → Memory
put_file mem dest bytes a =
    if leb dest a && ltb a (dest + length bytes) then get_or bytes (a - dest) 0 else mem a

abbrev pub svc_base : ℕ
svc_base = 0xaaaaa00000

abbrev pub dlg_base : ℕ
dlg_base = 0xaaaaa10000

abbrev pub file_name : List ℕ → List ℕ → List ℕ
file_name microkit_name ending = copy_string 80 (microkit_name ++ ending)

-- What the files give.
pub record Storage : Type 0 where
  pub memory : Memory
  pub dlg : DlgHeader
  pub svc : SvcDb
  pub client : FsClient

unfoldable pub parse_files : FsClient → Memory → Option Storage
parse_files s mem = do
  dlg ← dlg_parse mem dlg_base
  svc ← svc_parse mem svc_base
  some (record { memory = mem; dlg = dlg; svc = svc; client = s })

module _ (p : FsProtocol) (fs_cmd_initialise : ℕ) (blocking_wait : FsClient → FsClient)
    (fuel rounds : ℕ) (uninitialised : FsCmpl) (microkit_name : List ℕ) where
  -- A file that cannot be read is a crash.
  unfoldable pub load_file : FsClient → Memory → ℕ → List ℕ → Option (Memory × FsClient)
  load_file s mem dest path = do
    (result, s1) ← pico_vfs_readfile2buf p blocking_wait fuel rounds uninitialised s path
    (size, bytes) ← result
    some (put_file mem dest bytes, s1)

  unfoldable pub ca_monitor_init_storage : FsClient → Memory → Option Storage
  ca_monitor_init_storage s mem = do
    (error, completion, s1) ← run_command p blocking_wait fuel s uninitialised fs_cmd_initialise []
    assert (not error && succeeded p blocking_wait fuel completion)
    (mem1, s2) ← load_file s1 mem svc_base (file_name microkit_name (codes ".svc"))
    (mem2, s3) ← load_file s2 mem1 dlg_base (file_name microkit_name (codes ".dlg"))
    parse_files s3 mem2

  -- The two cothreads. The second one waits for a delegator, for ever if the file has none.
  unfoldable pub ca_monitor_init_system : Env → (ℕ → Bool) → FsClient → Monitor → Option Monitor
  ca_monitor_init_system env has_symbols s m = do
    files ← ca_monitor_init_storage s m.memory
    assert (not (files.dlg.delegator_count == 0))
    ca_monitor_init_states env has_symbols files.dlg files.svc (record m { memory = files.memory })
