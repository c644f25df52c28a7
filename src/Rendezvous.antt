-- ===== src/Rendezvous.antt =====
-- The rendezvous (server/rendezvous.c): a request is hidden in a URL, its answer comes in an image
-- as an onion, and the onion is peeled layer by layer until its base gives the NET of the dance.
pub mod State
pub mod Reset
pub mod Request
pub mod Image
pub mod Pow
pub mod Peel
pub mod Handle
pub mod Onions
pub mod Ownership
pub mod Runs
pub mod Resets
pub mod Work
pub mod Answers
pub mod Layers
