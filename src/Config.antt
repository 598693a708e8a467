-- ===== src/Config.antt =====
-- src/config: configuration text to tokens, tokens to a directive tree, and the arguments of directives.
pub mod Lexer
pub mod Parser
pub mod Measures
pub mod Args
pub mod Upstream
pub mod Location
pub mod Server
pub mod Http
pub mod Main
pub mod Include
