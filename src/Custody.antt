-- ===== src/Custody.antt =====
-- The custody of fuel handed over by QR batons: apps/api/src/custody-qr/custody-qr.service.ts.
-- `Payload` is what a baton carries and its signature, `Issue` the dispatch, `Accept` the reception,
-- `Sync` the batch of events that a client captured offline.
pub mod Payload
pub mod Accept
pub mod Issue
pub mod Keys
pub mod Once
pub mod Fuel
pub mod Reception
pub mod Sync
