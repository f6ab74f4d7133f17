-- ===== src/Uri.antt =====
-- Percent-encoding: esp32_cam/protocol_examples_common/protocol_examples_utils.c.
pub mod Tables
pub mod Encode
pub mod Decode
pub mod RoundTrip
mod Examples
