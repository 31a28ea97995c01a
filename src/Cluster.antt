-- ===== src/Cluster.antt =====
-- cluster/: the members' states and the ring description, the admin commands, the envelopes.
pub mod Envelope
pub mod Membership
pub mod Admin
