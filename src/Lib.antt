-- ===== src/Lib.antt =====
-- FuelChain follows fuel from its import to the pump: an API (apps/api/src, NestJS over a PostgreSQL
-- database by Prisma) keeps batches of fuel, the deliveries that cisterns make of them, the stock of
-- tanks, and the record of custody. This library models the core of that API: the QR batons by which
-- fuel changes hands, the stickers of cisterns, the batches, the evidence in the chain, and the rules
-- on volumes, statuses, roles and money that they rest on.
--
-- The parts and how they interact. A depot issues a baton for a part of a batch (`issue`): a delivery
-- is opened, the cistern is loaded, the depot's tank gives its stock, the batch goes on its way. A
-- station accepts the baton (`accept`): it is consumed, the batch is credited, the delivery is closed
-- and a settlement opened for its driver, the cistern is emptied, the tank of the station is filled.
-- A phone that was offline sends its receptions later (`syncOffline`). A station may also scan the
-- sticker of a cistern, which uploads the samples of its route (`scanAndIngest`), and receive its trip
-- without a baton (`receiveAfterScan`). What a reception measured may open an anomaly, and its evidence
-- goes to a chain (`afterReceived`). The passport of a batch compares what was declared, received,
-- stored and measured.
--
-- Which file models which part:
--   Schema, Store         the enumerations, exceptions and rows of prisma/schema.prisma; the database
--                         as a record of tables, each a list from its oldest row to its newest
--   BatchStatus           common/batch-status.ts; BatchStatus/Machine: sequences of transitions
--   Tank                  common/tank-inventory.ts; Tank/Levels: stock, Tank/Burn: idle consumption
--   Accounting            common/delivery-accounting.ts
--   Settlement, Payments  settlements/settlement-math.ts, settlements/settlements.service.ts
--                         (ensureForDelivery, markPaid)
--   Movement              batches/movement-reconciliation.ts; Reconciliation: batches/reconciliation.ts
--   Journey               common/journey-trail.ts (orderedPoints, computeVolumeDrops,
--                         computeQualityChanges, normalizeCheckpointKind); Journey/Parse: its
--                         parseJourneyTrail
--   Batches               batches/batches.service.ts (create, update, remove), common/batch-code.ts,
--                         custody/custody.service.ts (create); Batches/Keys, Moves and Steps: the
--                         operations that write batches, as steps of the state machine;
--                         Batches/Pages: findAll
--   Sticker               cisterns/cisterns.service.ts (scanAndIngest); Sticker/Receive: its
--                         receiveAfterScan; Sticker/Again, Receive/Written and
--                         Receive/Effects: what they keep
--   Canonical             common/canonical-json.ts; Canonical/Order: the order of keys
--   Inspections           customs/customs.service.ts (create), audits/audits.service.ts (create,
--                         addNote, updateStatus); Inspections/Follow, Referenced: the anomaly of
--                         a case
--   Checkpoints           checkpoints/checkpoints.service.ts (create)
--   Listings              what a user sees of settlements, checkpoints and contracts: listForActor
--                         of the services of settlements and checkpoints, listContractsForActor of
--                         stations/stations.service.ts; Listings/Seen: whose settlements
--   Anchors               blockchain/anchor-status.ts, custody/received-evidence.ts;
--                         Anchors/Request: the anchor of a reception in
--                         blockchain/blockchain.service.ts; Anchors/FollowUp:
--                         custody/received-follow-up.service.ts; Anchors/Select, Reuse: repeated anchors;
--                         Anchors/Setup: the configuration and status of the chain, with
--                         blockchain/viem-chain.ts; Anchors/Live: anchorLive, listAnchors, verifyTx;
--                         Anchors/Own: whose evidence a station sees
--   Stations              stations/station-quality.ts, stations/stations.service.ts (ackContract);
--                         Stations/Level, Panel and Listed: its public listing, supervision panel
--                         and report, with the handler in stations/stations.controller.ts
--   Sessions              auth/auth.service.ts (signToken, verifyToken); Sessions/Passwords,
--                         Sessions/Login: its passwords, login and resolveUser; Sessions/Bearer:
--                         auth/auth.guard.ts
--   Web                   of apps/web/src: lib/role-access.ts, lib/safe-next.ts,
--                         lib/station-scan-history.ts; Web/Gate: components/auth-gate.tsx,
--                         components/auth-provider.tsx; Web/Membership: lib/unlock.ts,
--                         lib/use-unlock-membership.ts; Web/ActiveTrip:
--                         lib/use-active-driver-trip.ts
--   Access                auth/permissions.ts, auth/roles.guard.ts
--   Custody/Payload       custody-qr/custody-qr.service.ts: payload, digest and signature
--   Custody/Issue         its `issue`: Issue (reads and checks), Issue/Baton (payload), Issue/Dispatch
--                         (transaction), Issue/Request (the whole), and what they keep
--   Custody/Accept        its `accept` up to the transaction; Accept/Handover, Accept/Stocking and
--                         Accept/Commit are the transaction; Reception is the whole call
--   Custody/Once, Keys    any sequence of the operations that write batons
--   Custody/Fuel          the litres in all tanks and cisterns under issue, accept and receiveAfterScan
--   Custody/Sync          its `syncOffline`
--   Examples              a small database on which the theorems are applied
--   Base                  tests, tables, results, integers and the numbers of JavaScript
-- All these files are under apps/api/src, but for those of Web.
--
-- How the code is modelled. Each method is a function on the database that returns a result; a
-- transaction that fails leaves the database as it was, and transactions take effect one after
-- another. What a method reads before its transaction is handed to it as a record (`Ready`, `Order`,
-- `Arrival`), so that a transaction may run on data of any age.
-- Volumes are integers in millilitres (the columns have three decimals), densities in 1/10000,
-- temperatures in 1/100 of a degree, times in milliseconds, amounts in cents, tolerances in
-- thousandths of a millilitre, the idle consumption in 1/4320000000 of a millilitre; so the arithmetic
-- is exact where the code uses floating point on the same values. Values from JSON are finite. Keys are
-- numbers. SHA-256 over the canonical JSON, the HMAC, the texts that JavaScript makes of odd values and
-- the drawn tokens are parameters, as are how what a reception awaits after its transaction ends
-- (`follow_up`) and the path that a browser makes of a text to go to. No function needs fuel: all recursion is on lists, texts
-- and JSON values.
--
-- Anchors and anomalies stand in a ledger of their own (`Ledger`), which the other tables do not read.
-- What a database returns first or last of rows with the same time is the order in which they were
-- stored; the latest trip of a cistern is the one that was stored last.
--
-- Not modelled: labels, notes, coordinates and other texts to show; getBaton and the passport
-- of a batch, which only read; the two reads of audit cases; the idle consumption of a station as a write, which nothing calls and
-- the database rounds; the thin services for tanks, documents, anomalies, vehicles, transports, quality and authorizations; the other pages
-- and hooks of the web application, the contracts, the firmware and the seed. Two requests at the same time that enter
-- the same client event, or import the same baton, are not modelled either: the second would find the
-- row.
pub mod Base
pub mod Schema
pub mod BatchStatus
pub mod Tank
pub mod Movement
pub mod Reconciliation
pub mod Accounting
pub mod Settlement
pub mod Store
pub mod Custody
pub mod Access
pub mod Payments
pub mod Journey
pub mod Listings
pub mod Batches
pub mod Sticker
pub mod Web
pub mod Inspections
pub mod Canonical
pub mod Checkpoints
pub mod Sessions
pub mod Stations
pub mod Anchors
pub mod Examples
