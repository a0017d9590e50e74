-- ===== src/Clients.antt =====
-- tcp_code: servers with a thread or a process for each client, and their client.
pub mod Users
pub mod Session
pub mod Fork
pub mod Parent
pub mod Client
mod Tests
