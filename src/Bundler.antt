-- ===== src/Bundler.antt =====
-- services/bundler: bundles, their manifest and its signature.
pub mod Manifest
pub mod Signer
pub mod Signing
pub mod Verifying
pub mod Urls
pub mod Extract
pub mod Import
pub mod Imported
pub mod Verified
pub mod Build
pub mod Built
pub mod Completed
pub mod Unpacked
pub mod Made
pub mod RoundTrip
mod Codec
mod Instances
mod Tests
