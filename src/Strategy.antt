-- ===== src/Strategy.antt =====
-- strategy/: the reasons to exit a position and the gates of a new signal.
pub mod Exit
pub mod ExitLaws
pub mod Signal
pub mod SignalLaws
mod Tests
