-- ===== src/OrderBook.antt =====
-- aos/order_book/order_book.h and the headers that it uses: the order book of one instrument, and
-- the notifier in front of it.
pub mod Level
pub mod Interfaces
pub mod Side
pub mod Book
pub mod Tops
pub mod Notifiers
