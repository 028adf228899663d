-- ===== src/Bybit/EnumPrinter.antt =====
-- aoe/bybit/enum_printer/enum_printer.h and the enumerations of aoe/bybit/enums/enums.h that it prints
-- and that no other module declares. A text comes with its status. The depths of the inverse contracts
-- are those of the linear ones.
use Prim.Native.String.{String}
use cryptobot_algo.Base.{Bool, true, false}
use cryptobot_algo.Orders.{Side, OrderMode}
use cryptobot_algo.Orders.Bybit.{Category, OrderStatus}

pub data ExecType : Type 0 where
  trade unknown : ExecType

pub data StopOrderType : Type 0 where
  invalid take_profit stop_loss trailing_stop stop partial_take_profit partial_stop_loss :
      StopOrderType

pub data TimeInForce : Type 0 where
  invalid gtc ioc fok day gtd opg cls gtx moc loc : TimeInForce

pub data OrderRouting : Type 0 where
  internal external smart dark_pool : OrderRouting

pub data SpotDepth : Type 0 where
  k1 k50 k200 : SpotDepth

pub data LinearDepth : Type 0 where
  k1 k50 k200 k500 : LinearDepth

pub data OptionDepth : Type 0 where
  k25 k100 : OptionDepth

unfoldable pub exec_type_to_string : ExecType → Bool × String
exec_type_to_string ExecType.trade = (true, "Trade")
exec_type_to_string ExecType.unknown = (false, "")

unfoldable pub category_to_string : Category → Bool × String
category_to_string Category.invalid = (false, "")
category_to_string Category.spot = (true, "spot")
category_to_string Category.linear = (true, "linear")
category_to_string Category.inverse = (true, "inverse")

unfoldable pub stop_order_type_to_string : StopOrderType → Bool × String
stop_order_type_to_string StopOrderType.invalid = (false, "")
stop_order_type_to_string StopOrderType.take_profit = (true, "TakeProfit")
stop_order_type_to_string StopOrderType.stop_loss = (true, "StopLoss")
stop_order_type_to_string StopOrderType.trailing_stop = (true, "TrailingStop")
stop_order_type_to_string StopOrderType.stop = (true, "Stop")
stop_order_type_to_string StopOrderType.partial_take_profit = (true, "PartialTakeProfit")
stop_order_type_to_string StopOrderType.partial_stop_loss = (true, "PartialStopLoss")

unfoldable pub order_status_to_string : OrderStatus → Bool × String
order_status_to_string OrderStatus.invalid = (false, "")
order_status_to_string OrderStatus.new = (true, "New")
order_status_to_string OrderStatus.partially_filled = (true, "PartiallyFilled")
order_status_to_string OrderStatus.untriggered = (true, "Untriggered")
order_status_to_string OrderStatus.rejected = (false, "Rejected")
order_status_to_string OrderStatus.partially_filled_canceled = (false, "PartiallyFilledCanceled")
order_status_to_string OrderStatus.filled = (true, "Filled")
order_status_to_string OrderStatus.cancelled = (false, "Cancelled")
order_status_to_string OrderStatus.triggered = (true, "Triggered")
order_status_to_string OrderStatus.deactivated = (false, "Deactivated")

unfoldable pub side_to_string : Side → Bool × String
side_to_string Side.invalid = (false, "")
side_to_string Side.sell = (true, "Sell")
side_to_string Side.buy = (true, "Buy")

unfoldable pub order_mode_to_string : OrderMode → Bool × String
order_mode_to_string OrderMode.invalid = (false, "")
order_mode_to_string OrderMode.market = (true, "Market")
order_mode_to_string OrderMode.limit = (true, "Limit")

unfoldable pub time_in_force_to_string : TimeInForce → Bool × String
time_in_force_to_string TimeInForce.invalid = (false, "")
time_in_force_to_string TimeInForce.gtc = (true, "GTC")
time_in_force_to_string TimeInForce.ioc = (true, "IOC")
time_in_force_to_string TimeInForce.fok = (true, "FOK")
time_in_force_to_string TimeInForce.day = (true, "DAY")
time_in_force_to_string TimeInForce.gtd = (true, "GTD")
time_in_force_to_string TimeInForce.opg = (true, "OPG")
time_in_force_to_string TimeInForce.cls = (true, "CLS")
time_in_force_to_string TimeInForce.gtx = (true, "GTX")
time_in_force_to_string TimeInForce.moc = (true, "MOC")
time_in_force_to_string TimeInForce.loc = (true, "LOC")

unfoldable pub order_routing_to_string : OrderRouting → Bool × String
order_routing_to_string OrderRouting.internal = (true, "Internal")
order_routing_to_string OrderRouting.external = (true, "External")
order_routing_to_string OrderRouting.smart = (true, "Smart")
order_routing_to_string OrderRouting.dark_pool = (true, "DarkPool")

unfoldable pub spot_depth_to_string : SpotDepth → Bool × String
spot_depth_to_string SpotDepth.k1 = (true, "1")
spot_depth_to_string SpotDepth.k50 = (true, "50")
spot_depth_to_string SpotDepth.k200 = (true, "200")

unfoldable pub linear_depth_to_string : LinearDepth → Bool × String
linear_depth_to_string LinearDepth.k1 = (true, "1")
linear_depth_to_string LinearDepth.k50 = (true, "50")
linear_depth_to_string LinearDepth.k200 = (true, "200")
linear_depth_to_string LinearDepth.k500 = (true, "500")

unfoldable pub option_depth_to_string : OptionDepth → Bool × String
option_depth_to_string OptionDepth.k25 = (true, "25")
option_depth_to_string OptionDepth.k100 = (true, "100")
