-- ===== src/Acs.antt =====
-- The ACS dance (server/acs.c): a NET is set, a GET goes through the proxy queues to the initial
-- gateway, and after a wait one to the redirect gateway, whose answer is the bridge access list.
pub mod State
pub mod Net
pub mod Dance
pub mod Progress
pub mod Locks
pub mod Runs
pub mod Callbacks
pub mod Laws
pub mod Moonwalk
pub mod Redirect
