-- ===== src/Desktop.antt =====
-- The desktop application: desktop_app/main.cpp and desktop_app/src.
pub mod State
pub mod OrAborts
pub mod Net
pub mod Frame
pub mod Run
pub mod Main
pub mod Invariant
pub mod Commands
pub mod Latency
pub mod Deaf
pub mod Stop
pub mod Written
pub mod Utils
mod Examples
