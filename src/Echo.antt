-- ===== src/Echo.antt =====
-- select_poll_epoll: servers that send back what they read, in upper case or as it is.
pub mod Buffer
pub mod Epoll
pub mod Poll
pub mod Drain
pub mod Same
pub mod Select
pub mod Modes
pub mod Main
mod Tests
