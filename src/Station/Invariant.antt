-- ===== src/Station/Invariant.antt =====
-- Commands, lines and connections of bbssrc/src/station.c, and the well-formedness of the station.
pub mod Quiet
pub mod Spoken
pub mod Steps
pub mod Lines
pub mod Runs
