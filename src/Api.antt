-- ===== src/Api.antt =====
-- services/api: the handlers of boot clients and agents, which are clients of the token store.
pub mod Boot
pub mod Served
pub mod Pages
pub mod Refresh
pub mod Install
pub mod Machines
pub mod Unlisted
mod Tests
