-- ===== src/Bybit.antt =====
-- aoe/bybit: the order book synchroniser of the Bybit connector and its printers of enumerations.
pub mod EnumPrinter
pub mod Sync
