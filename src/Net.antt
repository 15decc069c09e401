-- ===== src/Net.antt =====
-- The networking part of the server, linux_c++_6_4/nginx/net: messages and connections, receiving.
pub mod Memory
pub mod Conn
pub mod Recv
pub mod Socket
pub mod Request
pub mod Send
pub mod Epoll
pub mod Accept
pub mod Events
pub mod Listen
pub mod Start
pub mod Subproc
pub mod Inet
