-- ===== src/Config.antt =====
-- services/pxe-stack/internal/config: the configuration of the boot stack, read from the environment.
pub mod Env
pub mod Ports
pub mod Load
pub mod Range
mod Tests
