-- ===== src/Clients.antt =====
-- The tests of ssh-transport/src/lib.rs that dial, as clients.
pub mod Dialling
