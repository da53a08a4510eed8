-- ===== src/Witnesses.antt =====
-- Concrete jobs on which the theorems are applied.
pub mod Sample
pub mod Jobs
pub mod Boundary
pub mod Transfers
pub mod Workers
pub mod Plans
pub mod Archives
pub mod Lifecycles
pub mod Walks
pub mod Catalogs
pub mod Monitors
