-- ===== src/Tests/Parsers.antt =====
-- Parsers over documents that are trees.
use Prim.Native.String.{String}
use cryptobot_algo.Base.{ℕ, ◌≡◌, refl, Option, none, some, List, [], ◌∷◌, if◌then◌else◌}
use cryptobot_algo.Base.Int.{ℤ, pos}
use cryptobot_algo.Base.Texts.{eqb_str}
use cryptobot_algo.Orders.{TradingPair}
use cryptobot_algo.Converters.{convert_from_big}
use cryptobot_algo.Parsers.Doc.{DocApi}
use cryptobot_algo.Parsers.Unheard.{order_responses, order_responses-target}
use cryptobot_algo.Bybit.Sync.Order.{InOrder}
use cryptobot_algo.Parsers.Executions.{parse_executions}
use cryptobot_algo.Parsers.FirstOnly.{parse_executions-first}
use cryptobot_algo.Positions.Executions.{ExecutionEvent, spot_buy}
use cryptobot_algo.Listener.{enqueue, on_data_enqueued, begin, turn}
use cryptobot_algo.Listener.Strand.{Move, listen, run_task}
use cryptobot_algo.Bybit.Sync as Bybit
use cryptobot_algo.Orders.Bybit.{Category, OrderStatus}
use cryptobot_algo.Orders.Manager.{Manager, new_manager}

mutual
  data Tree : Type 0 where
    text : String → Tree
    num : ℕ → Tree
    amount : ℤ → Tree
    pair : ℕ → ℕ → Tree
    arr : Items → Tree
    obj : Fields → Tree

  data Items : Type 0 where
    nil : Items
    cons : Tree → Items → Items

  data Fields : Type 0 where
    end : Fields
    field : String → Tree → Fields → Fields

abbrev member_of : String → Fields → Option Tree
member_of key end = none
member_of key (field k v rest) = if eqb_str k key then some v else member_of key rest

abbrev member : String → Tree → Option Tree
member key (obj fields) = member_of key fields
member key _ = none

abbrev items_of : Items → List Tree
items_of nil = []
items_of (cons t ts) = t ∷ items_of ts

abbrev as_text : Option Tree → Option String
as_text (some (text s)) = some s
as_text _ = none

abbrev as_num : Option Tree → Option ℕ
as_num (some (num n)) = some n
as_num _ = none

abbrev as_amount : Option Tree → Option ℤ
as_amount (some (amount z)) = some z
as_amount _ = none

abbrev as_items : Option Tree → Option (List Tree)
as_items (some (arr ts)) = some (items_of ts)
as_items _ = none

abbrev as_object : Option Tree → Option Tree
as_object (some (obj fields)) = some (obj fields)
as_object _ = none

abbrev price_of : Tree → Option ℕ
price_of (pair p q) = some p
price_of _ = none

abbrev qty_of : Tree → Option ℕ
qty_of (pair p q) = some q
qty_of _ = none

abbrev trees : DocApi
trees = record {
  Doc = Tree;
  get_string = λ key t. as_text (member key t);
  get_uint64 = λ key t. as_num (member key t);
  get_uint64_in_string = λ key t. as_num (member key t);
  get_double_in_string = λ key t. as_amount (member key t);
  get_object = λ key t. as_object (member key t);
  get_array = λ key t. as_items (member key t);
  first = price_of;
  second = qty_of;
}

abbrev snapshot_message : Tree
snapshot_message = obj (
    field "type" (text "snapshot") (
      field "data"
        (obj (
          field "u" (num 5)
            (field "s" (text "BTCUSDT") (field "b" (arr (cons (pair 100 2) nil)) end))))
        end))

-- The coroutine of the synchroniser runs between two steps of the listener.
abbrev history : List (Move Tree)
history =
    listen (enqueue snapshot_message)
    ∷ listen on_data_enqueued
    ∷ listen begin
    ∷ listen turn
    ∷ run_task
    ∷ listen turn
    ∷ []

-- A message of one order that is filled.
abbrev filled_message : Tree
filled_message = obj (
    field "data"
      (arr (
        cons
          (obj (
            field "price" (amount (pos 100)) (
              field "leavesQty" (amount (pos 0)) (
                field "symbol" (text "BTCUSDT")
                  (field "orderLinkId" (num 3) (field "orderStatus" (text "Filled") end))))))
          nil))
      end)

abbrev no_orders : Manager Category OrderStatus
no_orders = new_manager

order_responses-target_example :
    (order_responses trees
      (λ t. some t)
      (enqueue filled_message ∷ on_data_enqueued ∷ begin ∷ turn ∷ [])
      no_orders).target
    ≡ no_orders
order_responses-target_example =
    order_responses-target trees (λ t. some t)
      (enqueue filled_message ∷ on_data_enqueued ∷ begin ∷ turn ∷ []) no_orders

abbrev purchase : ℤ → Tree
purchase qty = obj (
    field "category" (text "spot") (
      field "side" (text "Buy") (
        field "execFee" (amount (pos 0)) (
          field "execPrice" (amount (pos 100)) (
            field "execQty" (amount qty) (
              field "execValue" (amount (pos 300))
                (field "symbol" (text "BTCUSDT") (field "orderId" (num 8) end))))))))

abbrev bought : ExecutionEvent
bought = record { kind = spot_buy; key = 4; exec_price = pos 100; exec_qty = pos 3 }

abbrev key_of : TradingPair → ℕ
key_of p = 4

parse_executions-first_example :
    parse_executions trees key_of (purchase (pos 3) ∷ purchase (pos 2) ∷ []) ≡ some bought
unfolding parse_executions convert_from_big
parse_executions-first_example =
    parse_executions-first trees key_of (purchase (pos 3)) (purchase (pos 2) ∷ []) bought refl
