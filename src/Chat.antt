-- ===== src/Chat.antt =====
-- server_code: a chat server with a thread for each client, and its client.
pub mod Room
pub mod Client
mod Tests
