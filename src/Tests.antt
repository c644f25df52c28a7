-- ===== src/Tests.antt =====
-- Concrete clients, queues and JSON values, and the theorems of the development at them.
pub mod Fixtures
mod SeqNo
mod Proxy
pub mod Prefs
mod Acs
mod Exit
pub mod Rendezvous
pub mod Dispatch
mod Start
mod Pages
