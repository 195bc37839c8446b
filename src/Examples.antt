-- ===== src/Examples.antt =====
-- A small tenant (the tables of app/models), and what the services do with it.
mod World
mod Lifecycle
mod Duties
mod Platform
mod Cycle
mod Tiers
mod Approvals
pub mod Items
mod Coverage
mod Authoring
mod Context
