-- ===== src/Tests.antt =====
-- The theorems at concrete inputs: small files, a database of one service, a monitor of four
-- protocons.
mod Endings
mod Files
mod Services
mod Monitors
mod Orchestrators
mod Reachables
mod Requests
mod Runtimes
mod VfsFiles
mod VfsReads
