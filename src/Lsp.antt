-- ===== src/Lsp.antt =====
-- src/slopsentinel/lsp.py: the language server's documents and messages.
pub mod Ranges
pub mod Server
mod Answered
mod Coherent
mod Nearest
mod Tests
