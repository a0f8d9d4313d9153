-- ===== src/Api.antt =====
-- The functions of msdk/msdk.h together: what any sequence of calls leaves down at the box.
pub mod Box
pub mod Agrees
pub mod Keys
pub mod Buttons
pub mod Clicks
pub mod Axes
pub mod Moves
pub mod Places
pub mod Steps
pub mod Curves
pub mod Requests
pub mod Windows
pub mod Lights
pub mod Answers
pub mod Runs
pub mod Recovers
pub mod Reach
pub mod Spots
pub mod Tracks
pub mod Idle
pub mod Arrives
pub mod Fits
pub mod Whereabouts
pub mod Progress
