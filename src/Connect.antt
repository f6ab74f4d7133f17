-- ===== src/Connect.antt =====
-- The connection helpers of the firmware: esp32_cam/protocol_examples_common.
pub mod Examples
mod FrontExamples
mod InputExamples
mod LinkExamples
pub mod Address
pub mod ConsoleCmd
pub mod EthDriver
pub mod Ethernet
pub mod FrontEnd
pub mod Netif
pub mod Ppp
pub mod Selection
pub mod StaConfig
pub mod Station
pub mod Thread
pub mod ThreadConfig
pub mod Wifi
