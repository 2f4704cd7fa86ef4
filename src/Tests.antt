-- ===== src/Tests.antt =====
-- Runs of the models of indexer/src, web/src/lib and faucet/src at small inputs.
mod Fixtures
mod Like
mod Listing
mod Ingestion
mod Chains
mod Auctions
mod Clients
mod Readers
mod Bundles
mod Faucets
mod Views
mod Settlements
