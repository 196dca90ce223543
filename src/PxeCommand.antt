-- ===== src/PxeCommand.antt =====
-- services/pxe-stack/cmd/pxe: how the command finds a port for its HTTP listener.
pub mod Listen
pub mod Ports
pub mod Bound
pub mod Passed
mod Tests
