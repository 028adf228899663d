-- ===== src/Parsers.antt =====
-- aoe/binance/parser and aoe/bybit/parser. simdjson is the record `DocApi`, whose operations answer none
-- where the library answers an error; an entry that is no array throws there, which ends the coroutine
-- that parses as a failure does. `none` of a parser is `{false, nullptr}`. An event comes from a memory
-- pool and has the values of its constructor where nothing is set.
pub mod Doc
pub mod Levels
pub mod Orders
pub mod Unheard
pub mod Books
pub mod Executions
pub mod FirstOnly
pub mod Statuses
