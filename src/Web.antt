-- ===== src/Web.antt =====
-- web/src/lib and web/api: the parts of the web app that decide: error classification, the submission of a
-- transaction, and the view of the auctions list.
pub mod Errors
pub mod Submit
pub mod ListView
pub mod IndexerClient
pub mod Reveal
pub mod Bundle
pub mod ChainReader
pub mod Faucet
