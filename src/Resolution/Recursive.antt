-- ===== src/Resolution/Recursive.antt =====
-- Types that refer to themselves through a slice or a map: resolvePlan of engine.go.
use fastcopier.Base.{nat_eq}
use fastcopier.Plan.{Plan}
