-- ===== src/Prefs.antt =====
-- The preferences (server/preferences.c): the values, the command line of StegoTorus that is built
-- from them, and the list of bridges.
pub mod Values
pub mod Updates
pub mod Argv
pub mod Bridges
pub mod Handle
