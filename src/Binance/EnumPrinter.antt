-- ===== src/Binance/EnumPrinter.antt =====
-- aoe/binance/enum_printer/enum_printer.h and the enumerations of aoe/binance/enums/enums.h that it
-- prints and that no other module declares. A text comes with its status.
use Prim.Native.String.{String}
use cryptobot_algo.Base.{Bool, true, false}
use cryptobot_algo.Orders.{Side, OrderMode}
use cryptobot_algo.Orders.Binance.{Category, OrderStatus}

pub data ExecType : Type 0 where
  trade unknown : ExecType

pub data StopOrderType : Type 0 where
  invalid stop_loss stop_loss_limit take_profit take_profit_limit : StopOrderType

pub data TimeInForce : Type 0 where
  invalid gtc ioc fok : TimeInForce

pub data OrderRouting : Type 0 where
  internal external smart dark_pool : OrderRouting

pub data SpotDepth : Type 0 where
  k1 k5 k10 k20 : SpotDepth

pub data SpotDiffUpdateSpeed : Type 0 where
  k100 k1000 : SpotDiffUpdateSpeed

pub data FuturesDiffUpdateSpeed : Type 0 where
  k100 k250 k500 : FuturesDiffUpdateSpeed

unfoldable pub exec_type_to_string : ExecType → Bool × String
exec_type_to_string ExecType.trade = (true, "TRADE")
exec_type_to_string ExecType.unknown = (false, "")

unfoldable pub category_to_string : Category → Bool × String
category_to_string Category.invalid = (false, "")
category_to_string Category.spot = (true, "spot")
category_to_string Category.futures = (true, "linear")

unfoldable pub stop_order_type_to_string : StopOrderType → Bool × String
stop_order_type_to_string StopOrderType.invalid = (false, "")
stop_order_type_to_string StopOrderType.stop_loss = (true, "STOP_LOSS")
stop_order_type_to_string StopOrderType.stop_loss_limit = (true, "STOP_LOSS_LIMIT")
stop_order_type_to_string StopOrderType.take_profit = (true, "TAKE_PROFIT")
stop_order_type_to_string StopOrderType.take_profit_limit = (true, "TAKE_PROFIT_LIMIT")

unfoldable pub order_status_to_string : OrderStatus → Bool × String
order_status_to_string OrderStatus.invalid = (false, "")
order_status_to_string OrderStatus.new = (true, "NEW")
order_status_to_string OrderStatus.pending_new = (true, "PENDING_NEW")
order_status_to_string OrderStatus.partially_filled = (true, "PARTIALLY_FILLED")
order_status_to_string OrderStatus.filled = (false, "FILLED")
order_status_to_string OrderStatus.cancelled = (false, "CANCELED")
order_status_to_string OrderStatus.pending_cancel = (true, "PENDING_CANCEL")
order_status_to_string OrderStatus.rejected = (false, "REJECTED")
order_status_to_string OrderStatus.expired = (true, "EXPIRED")
order_status_to_string OrderStatus.expired_in_match = (false, "EXPIRED_IN_MATCH")

unfoldable pub side_to_string : Side → Bool × String
side_to_string Side.invalid = (false, "")
side_to_string Side.sell = (true, "SELL")
side_to_string Side.buy = (true, "BUY")

unfoldable pub order_mode_to_string : OrderMode → Bool × String
order_mode_to_string OrderMode.invalid = (false, "")
order_mode_to_string OrderMode.market = (true, "MARKET")
order_mode_to_string OrderMode.limit = (true, "LIMIT")

unfoldable pub time_in_force_to_string : TimeInForce → Bool × String
time_in_force_to_string TimeInForce.invalid = (false, "")
time_in_force_to_string TimeInForce.gtc = (true, "GTC")
time_in_force_to_string TimeInForce.ioc = (true, "IOC")
time_in_force_to_string TimeInForce.fok = (true, "FOK")

unfoldable pub order_routing_to_string : OrderRouting → Bool × String
order_routing_to_string OrderRouting.internal = (true, "Internal")
order_routing_to_string OrderRouting.external = (true, "External")
order_routing_to_string OrderRouting.smart = (true, "Smart")
order_routing_to_string OrderRouting.dark_pool = (true, "DarkPool")

unfoldable pub spot_depth_to_string : SpotDepth → Bool × String
spot_depth_to_string SpotDepth.k1 = (true, "1")
spot_depth_to_string SpotDepth.k5 = (true, "5")
spot_depth_to_string SpotDepth.k10 = (true, "10")
spot_depth_to_string SpotDepth.k20 = (true, "20")

unfoldable pub spot_speed_to_string : SpotDiffUpdateSpeed → Bool × String
spot_speed_to_string SpotDiffUpdateSpeed.k100 = (true, "100ms")
spot_speed_to_string SpotDiffUpdateSpeed.k1000 = (true, "1000ms")

unfoldable pub futures_speed_to_string : FuturesDiffUpdateSpeed → Bool × String
futures_speed_to_string FuturesDiffUpdateSpeed.k100 = (true, "100ms")
futures_speed_to_string FuturesDiffUpdateSpeed.k250 = (true, "250ms")
futures_speed_to_string FuturesDiffUpdateSpeed.k500 = (true, "500ms")
