-- ===== src/Indexer.antt =====
-- indexer/src: the service that follows the auction contract's events and serves the auctions list.
pub mod Runtime
pub mod Types
pub mod Store
pub mod Cursor
pub mod Query
pub mod Value
pub mod Chain
pub mod Ingest
pub mod Api
