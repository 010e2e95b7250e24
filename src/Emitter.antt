-- ===== src/Emitter.antt =====
-- blueprints/openstack/chart/files/contract-emitter.py: the service-contract emitter.
pub mod Config
pub mod Effects
pub mod Keystone
pub mod Usage
pub mod Health
pub mod Store
pub mod Main
mod Samples
