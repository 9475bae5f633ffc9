-- ===== src/Router.antt =====
-- xray-go/app/router: which outbound a connection goes to, by the first rule that applies to it.
-- Webhooks, which are told of a choice and do not change it, are left out.
pub mod Conditions
pub mod Balancers
pub mod Rules
pub mod State
pub mod Routes
pub mod Picking
pub mod Tags
pub mod Reloading
pub mod Operations
pub mod Turns
