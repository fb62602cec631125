-- ===== src/Sysstat.antt =====
-- The part of src/modules/sysstat-lite that serves the usage of the processors: the counters and
-- intervals of common.c, the reading of /proc/stat in rd_stats.c, the count of processors in count.c,
-- `mpstat` without its tables of interrupts, and `cpuinfo`.
pub mod Cpu
pub mod Stat
pub mod Count
pub mod Cpuinfo
mod Examples
pub mod Mpstat
pub mod Irqs
