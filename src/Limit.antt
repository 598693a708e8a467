-- ===== src/Limit.antt =====
-- src/limit.rs: `limit_req`, a token bucket per key, and `limit_conn`, a count of the requests in
-- flight per key.
pub mod Req
pub mod Conn
