-- ===== src/Preflight.antt =====
-- hack/preflight-refs.py: whether the chart and image references of a repository resolve, whether an
-- image can be rebuilt under its name, and whether one is served as a manifest of schema 1.
pub mod Registry
pub mod Pairing
pub mod Scan
pub mod Verdict
mod Samples
