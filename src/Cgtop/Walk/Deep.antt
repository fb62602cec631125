-- ===== src/Cgtop/Walk/Deep.antt =====
-- The walk of cgtop.c at a group that has child groups and is not the root.
use lepd.Base.Doubles.{Doubles}
