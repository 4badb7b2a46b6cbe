-- ===== src/Lib.antt =====
-- Carrels, the library of the verification: the monitor of dynamic protection domains
-- ("protocons"), its data files and its services. An orchestrator calls the monitor by protected
-- procedure calls; the monitor parses an image, picks a protocon, installs the services that the
-- image asks for, starts the protocon's loader and, on request, connects it to its peers at the
-- vSwitch.
--
-- Modules, and the code that each models:
--   Base and its children: helpers, and memory as bytes with its little-endian words;
--   Delegation: include/monitor/delegation.h;
--   ServiceDb: the database (svc_*) of include/service/manifest.h;
--   Service.Types, Manifest, Registry, Planner, Installer: src/monitor/service, with the types of
--     include/carrels-monitor.h and include/service/manifest.h;
--   Monitor.State: the monitor's globals, one record, and include/pcmcall/error.h and deploy.h;
--   Monitor.Network, Requests, Deploy: src/monitor/request;
--   Monitor.Fault, Init, Calls: src/monitor/fault/fault.c, src/monitor/init/minit.c and
--     src/monitor/mcall.c;
--   Monitor.Steps: src/monitor/entry.c, as a relation: calls, faults and deployments in any order;
--   Cri.Objects, State, Dispatch, Transport: src/orchestrator/cri_runtime.c, the runtime's tables,
--     its requests and its byte stream, on the state of the orchestrator that it belongs to;
--   Orchestrator: src/orchestrator/orchestrator.c; its children Consistency and Reach: its steps in
--     any order;
--   Cri.Events: the notifications of src/orchestrator/orchestrator.c, which join the two;
--   Fs: lib/fs/helpers/helpers.c; Vfs: src/util/pico_vfs.c;
--   Tests: concrete inputs for the theorems.
-- A module's children hold its proofs. A function has the name of the C function; a function that
-- is one round of a loop or one part of a body is named for what it does. An operation takes the
-- state and returns the new one; what it does to the rest of the system is added to the trace.
--
-- Conventions. Numbers are natural numbers and wrap around where the C type does. An array is a
-- function from the index, or a list where only the filled places count. `none` is an error
-- return, or a halt: a failed assertion, a crash, or an access out of bounds. Every loop is
-- structural, over a list or a count of rounds that the code gives (records, entries, 8 types, 16
-- protocons, packets), so no fuel is needed, but for the wait for the file system in Fs, which ends
-- when the server does, and for the loop of Vfs that reads a file, for which the length of the file
-- and one more is enough.
--
-- Parameters, since they are not in the repository: the vSwitch's answers, the cothread
-- library's, the loading of ELF files, the writing of registers, the symbol bundles and the
-- generated layout (the record `Env`); the monitor as the orchestrator sees it (the record
-- `OrchestratorEnv`); what the monitor does while a deployment waits for a file (`wait`); the
-- packet queue and the printing of identifiers (the record `CriEnv`), and what the orchestrator's
-- other cothreads do while a container is started (`yield`). In the step relations of the monitor and
-- of the orchestrator a cothread that is spawned runs as a later step of its own. The data files of the
-- services are not in the source: what comes of a read of one is also `wait`'s.
--
-- Not modelled: the entry points that set up queues, and prints; the serialisation of the
-- loader's requests (a library's); the microrl shell library, a copy of another project; the
-- build files, the guest's and host's tools.
pub mod Base
pub mod Cri
pub mod Delegation
pub mod Fs
pub mod ServiceDb
pub mod Orchestrator
pub mod Service
pub mod Monitor
pub mod Tests
pub mod Vfs
