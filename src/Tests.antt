-- ===== src/Tests.antt =====
-- Concrete calls: the theorems at inputs where their conditions hold, and values of the operations
-- (core/src/main/resources/com/sandbox/runtime/v2/js/version_3).
mod Samples
mod Files
mod Loader
mod Loading
mod Derivations
mod Registering
mod Routing
mod Sessions
mod Checking
mod Filtering
mod Older
mod Additions
mod Schemes
mod Rendering
