-- ===== src/Kcp.antt =====
-- xray-go/transport/internet/kcp: the KCP transport, a reliable stream over UDP packets.
pub mod Config
pub mod Segment
pub mod RoundTripInfo
pub mod AckList
pub mod Receiving
pub mod Sending
pub mod Connection
