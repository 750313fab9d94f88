-- ===== src/Provider.antt =====
-- The adapters of app/adapters/outbound for the LLM and the TTS provider.
pub mod Stub
pub mod Http
pub mod Matrix
pub mod Vllm
pub mod GptSovits
