-- ===== src/Dhcp.antt =====
-- The DHCP server of the PXE stack (services/pxe-stack/internal/dhcp).
pub mod Ip
pub mod Handler
pub mod Server
pub mod Scan
pub mod Invariant
pub mod Safety
pub mod Totality
pub mod Exhaustion
pub mod Bump
pub mod Replies
pub mod Renewal
mod Tests
