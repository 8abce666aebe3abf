-- ===== src/Kcp.antt =====
-- transport/internet/kcp: a reliable stream over datagrams.
pub mod Go
pub mod Segment
pub mod Packet
pub mod Crypt
pub mod AckList
pub mod ReceivingWindow
pub mod Receiving
pub mod SendingWindow
pub mod Sending
pub mod RoundTripInfo
pub mod Config
pub mod Connection
pub mod Channel
mod Tests
