-- ===== src/Tests.antt =====
-- Concrete networks, and the theorems of the other files applied to them.
pub mod Data
pub mod Engine
pub mod Bus
pub mod Functions
pub mod Model
pub mod Ready
pub mod Frames
pub mod Creation
pub mod Document
pub mod Stub
