-- ===== src/Firmware.antt =====
-- The firmware's own code: esp32_cam/main.
mod Examples
mod StartExamples
pub mod AppMain
pub mod TcpClient
pub mod HostPort
pub mod TcpApp
pub mod WebSocket
pub mod WebSocketApp
