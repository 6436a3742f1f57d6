-- ===== src/Frontend.antt =====
-- services/frontend: the chat page and what it reads of the backend.
pub mod Transport
pub mod Session
pub mod Reply
pub mod Texts
pub mod Script
pub mod Sidebar
