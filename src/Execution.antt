-- ===== src/Execution.antt =====
-- What running a plan guarantees: the Copy methods of plans.go and the plan_*.go files.
pub mod Balance
pub mod Reads
pub mod Cycles
pub mod Access
pub mod Containers
pub mod Parts
pub mod Plans
pub mod MapPlans
pub mod Visited
pub mod Panics
pub mod Policies
pub mod Memory
pub mod Pointers
pub mod Items
pub mod Slices
pub mod FreshSlices
