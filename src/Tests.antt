-- ===== src/Tests.antt =====
-- Concrete runs of the functions of arm64_files/migrate.c and of the benchmarks, and the theorems at them.
pub mod Samples
mod TimingRuns
mod FolioRuns
mod UnmapRuns
mod BatchRuns
mod EagerRuns
mod SyscallRuns
mod NumaRuns
mod BenchRuns
