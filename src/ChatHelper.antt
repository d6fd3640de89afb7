-- ===== src/ChatHelper.antt =====
-- src/frontend/src/services/chat-helper.tsx: the two parsers of a model's raw output.
pub mod Qwen
pub mod Gpt
