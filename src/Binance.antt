-- ===== src/Binance.antt =====
-- aoe/binance: the order book synchronisers of the Binance connector, its order events and its
-- printers of enumerations.
pub mod EnumPrinter
pub mod Events
pub mod Sync
