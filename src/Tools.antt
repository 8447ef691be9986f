-- ===== src/Tools.antt =====
-- internal/tools: the tools that the language model may call.
pub mod Registry
