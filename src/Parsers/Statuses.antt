-- ===== src/Parsers/Statuses.antt =====
-- The statuses of orders, printed and read.
use cryptobot_algo.Base.{◌≡◌, refl, Option, none, some}
use cryptobot_algo.Parsers.Orders.{binance_factory, bybit_registered, kind_of}
use cryptobot_algo.Orders.Binance as Binance
use cryptobot_algo.Orders.Bybit as Bybit
use cryptobot_algo.Binance.EnumPrinter as BinancePrinter
use cryptobot_algo.Bybit.EnumPrinter as BybitPrinter

-- The event that tells of a status.
abbrev pub binance_kind : Binance.OrderStatus → Option Binance.Kind
binance_kind Binance.OrderStatus.invalid = none
binance_kind Binance.OrderStatus.new = some Binance.Kind.new
binance_kind Binance.OrderStatus.pending_new = some Binance.Kind.pending_new
binance_kind Binance.OrderStatus.partially_filled = some Binance.Kind.partially_filled
binance_kind Binance.OrderStatus.filled = some Binance.Kind.filled
binance_kind Binance.OrderStatus.cancelled = some Binance.Kind.cancelled
binance_kind Binance.OrderStatus.pending_cancel = some Binance.Kind.pending_cancel
binance_kind Binance.OrderStatus.rejected = some Binance.Kind.rejected
binance_kind Binance.OrderStatus.expired = some Binance.Kind.expired
binance_kind Binance.OrderStatus.expired_in_match = some Binance.Kind.expired_in_match

abbrev pub bybit_kind : Bybit.OrderStatus → Option Bybit.Kind
bybit_kind Bybit.OrderStatus.invalid = none
bybit_kind Bybit.OrderStatus.new = some Bybit.Kind.new
bybit_kind Bybit.OrderStatus.partially_filled = some Bybit.Kind.partially_filled
bybit_kind Bybit.OrderStatus.untriggered = some Bybit.Kind.untriggered
bybit_kind Bybit.OrderStatus.rejected = some Bybit.Kind.rejected
bybit_kind Bybit.OrderStatus.partially_filled_canceled = some Bybit.Kind.partially_filled_cancelled
bybit_kind Bybit.OrderStatus.filled = some Bybit.Kind.filled
bybit_kind Bybit.OrderStatus.cancelled = some Bybit.Kind.cancelled
bybit_kind Bybit.OrderStatus.triggered = some Bybit.Kind.triggered
bybit_kind Bybit.OrderStatus.deactivated = some Bybit.Kind.deactivated

-- The text that the printer of either exchange makes of a status is the one under which the parser knows
-- the event of that status; Bybit's holds of what RegisterFromConfig registers.
pub order_status-kind_of :
    (s : Binance.OrderStatus) (t : Bybit.OrderStatus)
    → (kind_of binance_factory (BinancePrinter.order_status_to_string s).1 ≡ binance_kind s)
      × (kind_of bybit_registered (BybitPrinter.order_status_to_string t).1 ≡ bybit_kind t)
unfolding BinancePrinter.order_status_to_string BybitPrinter.order_status_to_string
order_status-kind_of s t = (binance s, bybit t)
  where
    binance :
        (s : Binance.OrderStatus)
        → kind_of binance_factory (BinancePrinter.order_status_to_string s).1 ≡ binance_kind s
    binance Binance.OrderStatus.invalid = refl
    binance _ = refl

    bybit :
        (t : Bybit.OrderStatus)
        → kind_of bybit_registered (BybitPrinter.order_status_to_string t).1 ≡ bybit_kind t
    bybit Bybit.OrderStatus.invalid = refl
    bybit _ = refl
