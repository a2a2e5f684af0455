-- ===== src/SocketManager.antt =====
-- socket_manager/socket_manager.cpp and socket_manager.h, in the modules below.
pub mod FdMap
pub mod Descriptors
pub mod Objects
pub mod Traffic
pub mod Silence
pub mod Connect
pub mod Events
pub mod Lifecycle
pub mod Membership
pub mod WellFormed
pub mod Reachable
pub mod View
pub mod Sending
pub mod Batch
pub mod Releasing
pub mod StartStop
