-- ===== src/Resolver.antt =====
-- services/api_go/internal/resolver: the signature of a request for a work. Bytes and words are
-- natural numbers, with the wrap-around of their width written out.
pub mod Work
pub mod Hosts
pub mod Cache
pub mod Rc4
pub mod Sm3
pub mod Escape
pub mod Base64
pub mod Signature
mod Examples
