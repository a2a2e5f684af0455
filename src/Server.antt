-- ===== src/Server.antt =====
-- The servers and the client that own a `SocketManager`, in the modules below.
pub mod Base
pub mod Input
pub mod Output
pub mod TcpServer
pub mod Accept
pub mod UdpServer
pub mod TcpClient
pub mod Heartbeat
pub mod Calls
pub mod Hazards
pub mod WellFormed
pub mod Delivery
pub mod Receiving
pub mod Listening
pub mod Stopping
pub mod StartStop
