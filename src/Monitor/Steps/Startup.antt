-- ===== src/Monitor/Steps/Startup.antt =====
-- What the monitor has when it has started.
use carrels.Base.{
  ℕ, ◌≤◌, ◌<◌, ◌==◌, inl, inr, Bool, not, ◌&&◌, Bool-cases, List, [], arith, codes, Memory, assert,
  Holds, Holds-map, Holds-bind, Holds-of, Holds-then,
}
use carrels.Delegation.{dlg_parse}
use carrels.Delegation.Layout.{IsDlg, dlg_parse_iff}
use carrels.ServiceDb.{svc_parse}
use carrels.ServiceDb.Layout.{IsSvc, svc_parse_iff}
use carrels.Fs.{FsCmpl, FsClient}
use carrels.Vfs.{FsProtocol, run_command, succeeded}
use carrels.Monitor.State.{Monitor, Env}
use carrels.Monitor.Init.{ca_monitor_init_states}
use carrels.Monitor.Init.Storage.{
  Storage, parse_files, svc_base, dlg_base, file_name, load_file, ca_monitor_init_storage,
  ca_monitor_init_system,
}
use carrels.Monitor.Steps.Calls.{IsSane}
use carrels.Monitor.Steps.Reach.{IsCleared, init_states-IsSane}

-- Both headers are those of well-formed files in memory.
pub record AreParsed (files : Storage) : Type 0 where
  pub delegators : IsDlg files.memory dlg_base files.dlg
  pub services : IsSvc files.memory svc_base files.svc

parse_files-AreParsed : (s : FsClient) (mem : Memory) → Holds AreParsed (parse_files s mem)
unfolding parse_files
parse_files-AreParsed s mem =
    Holds-bind (IsDlg mem dlg_base) AreParsed (dlg_parse mem dlg_base) _
      (Holds-of _ _ (λ dlg e. (dlg_parse_iff mem dlg_base dlg).0 e))
      (λ dlg v.
        Holds-bind (IsSvc mem svc_base) AreParsed (svc_parse mem svc_base) _
          (Holds-of _ _ (λ svc e. (svc_parse_iff mem svc_base svc).0 e))
          (λ svc w. record { delegators = v; services = w }))

-- The monitor runs with the protocons of the file.
pub record HasStarted (files : Storage) (m : Monitor) : Type 0 where
  pub parsed : AreParsed files
  pub few : files.dlg.delegator_count ≤ 16
  pub some_protocon : 0 < files.dlg.delegator_count
  pub sane : IsSane files.dlg.delegator_count m

module _ (p : FsProtocol) (fs_cmd_initialise : ℕ) (blocking_wait : FsClient → FsClient)
    (fuel rounds : ℕ) (uninitialised : FsCmpl) (microkit_name : List ℕ) where
  storage-AreParsed :
      (s : FsClient) (mem : Memory)
      → Holds AreParsed (
          ca_monitor_init_storage p fs_cmd_initialise blocking_wait fuel rounds uninitialised
            microkit_name s mem)
  unfolding ca_monitor_init_storage
  storage-AreParsed s mem =
      Holds-then AreParsed (run_command p blocking_wait fuel s uninitialised fs_cmd_initialise []) _
        (λ r. Holds-then AreParsed (assert (not r.0 && succeeded p blocking_wait fuel r.1)) _ (λ u.
          Holds-then AreParsed
            (load_file p fs_cmd_initialise blocking_wait fuel rounds uninitialised microkit_name r.2
              mem svc_base (file_name microkit_name (codes ".svc")))
            _
            (λ (r1 : Memory × FsClient).
              Holds-then AreParsed _ _
                (λ (r2 : Memory × FsClient). parse_files-AreParsed r2.1 r2.0))))

  -- Where the system starts, from cleared globals, both files are well-formed, as the parsers accept
  -- them, there are between 1 and 16 protocons, one for each delegator, and the monitor is as every
  -- later event keeps it.
  pub ca_monitor_init_system-HasStarted :
      (env : Env) (has_symbols : ℕ → Bool) (s : FsClient) (m : Monitor)
      → IsCleared m
      → Holds
          (λ m'. (files : Storage) × HasStarted files m')
          (ca_monitor_init_system p fs_cmd_initialise blocking_wait fuel rounds uninitialised
            microkit_name env has_symbols s m)
  unfolding ca_monitor_init_system
  ca_monitor_init_system-HasStarted env has_symbols s m cleared =
      Holds-bind AreParsed (λ m'. (files : Storage) × HasStarted files m')
        (ca_monitor_init_storage p fs_cmd_initialise blocking_wait fuel rounds uninitialised
          microkit_name s m.memory)
        _ (storage-AreParsed s m.memory)
        (λ files v. elim (Bool-cases (files.dlg.delegator_count == 0)) [
          | inl nothing ↦ rw nothing tt
          | inr several ↦ rw several (
              Holds-map _ _ (ca_monitor_init_states env has_symbols files.dlg files.svc _)
                (λ m' w. (
                  files,
                  record { parsed = v; few = w.1; some_protocon = ground arith; sane = w.0 },
                ))
                (init_states-IsSane env has_symbols files.dlg files.svc
                  (record m { memory = files.memory })
                  (record {
                    untargeted = cleared.untargeted;
                    none_pending = cleared.none_pending;
                  })))
        ])
