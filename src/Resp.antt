-- ===== src/Resp.antt =====
-- The wire format: the encoders of utils/utils.h, the token parser and the two response parsers of
-- parser/parser.cpp.
pub mod Encode
pub mod Parser
pub mod Digits
pub mod RoundTrip
pub mod Tokens
mod Examples
