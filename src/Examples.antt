-- ===== src/Examples.antt =====
-- The example programs: echo servers, and the console that ends them. examples/.
pub mod Text
pub mod TcpEcho
pub mod UdpEcho
pub mod Console
