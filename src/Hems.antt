-- ===== src/Hems.antt =====
-- apps/edge-api/app/hems: the energy-management core.
pub mod Models
pub mod Dispatchability
pub mod LoadControl
pub mod Dispatcher
pub mod Writers
mod Tests
