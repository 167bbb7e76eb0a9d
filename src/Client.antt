-- ===== src/Client.antt =====
-- internal/client/runpod: the management client of RunPod's REST v1 API.
pub mod Types
pub mod Transport
pub mod Validation
pub mod Methods
