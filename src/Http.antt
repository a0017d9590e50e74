-- ===== src/Http.antt =====
-- http_code/: two small HTTP file servers, one over epoll and one over libevent.
pub mod Bytes
pub mod GetLine
pub mod FileType
pub mod Decode
pub mod Files
pub mod Reply
pub mod Epoll
pub mod Loop
pub mod Libevent
mod Tests
