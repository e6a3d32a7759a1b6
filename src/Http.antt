-- ===== src/Http.antt =====
-- net/HttpData.h and net/HttpData.cpp: one connection's request parser and response builder.
pub mod Types
pub mod Mime
pub mod Uri
pub mod Headers
pub mod Reset
pub mod Reply
pub mod Analysis
pub mod Conn
pub mod Phases
pub mod Handlers
pub mod Session
