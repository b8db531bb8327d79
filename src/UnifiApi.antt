-- ===== src/UnifiApi.antt =====
-- unifi_api.py: requests, pages, and the operations on vouchers.
pub mod Http
pub mod Voucher
pub mod Pages
pub mod Mutations
pub mod Connect
