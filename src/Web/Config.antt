-- ===== src/Web/Config.antt =====
-- web/web_config.c: the two HTTP clients of the access point.
pub mod Connection
pub mod Reply
pub mod Callbacks
pub mod Clients
pub mod HeaderEnd
pub mod Stored
pub mod Receive
pub mod Timeout
pub mod Replies
pub mod Respond
pub mod Server
