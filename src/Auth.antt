-- ===== src/Auth.antt =====
-- pkg/auth: capability tokens of agent tasks and their store.
pub mod Types
pub mod Labels
pub mod Memory
pub mod Table
pub mod Secrets
pub mod Models
pub mod Mint
pub mod Tiers
pub mod Caveats
pub mod Verify
pub mod Extract
pub mod Signatures
pub mod Soundness
pub mod Attenuation
pub mod Needs
pub mod Minted
pub mod Narrowing
pub mod Extraction
pub mod Extracted
pub mod Effective
pub mod Revocation
pub mod Small
mod Tests
mod ClusterTests
