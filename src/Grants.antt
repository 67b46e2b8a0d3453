-- ===== src/Grants.antt =====
-- Access publications of the control service: repository/model_access_delivery.go and the functions
-- of model_access_publications.go and model_access_delivery_guard.go that a delivery goes through.
pub mod Tables
pub mod Queue
pub mod Delivery
pub mod Holder
pub mod Checked
pub mod Captured
pub mod Relay
pub mod Vouched
pub mod Examples
