-- ===== src/Net.antt =====
-- The addresses, sockets and streams of net/.
pub mod Address
pub mod Socket
pub mod SocketStream
