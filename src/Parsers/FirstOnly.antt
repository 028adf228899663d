-- ===== src/Parsers/FirstOnly.antt =====
-- The executions of one message.
use Prim.Native.String.{String}
use cryptobot_algo.Base.{ℕ, ◌≡◌, Option, none, some, List, [], ◌∷◌, Option-cases, inl, inr}
use cryptobot_algo.Base.Int.{ℤ}
use cryptobot_algo.Base.Texts.{find}
use cryptobot_algo.Orders.{TradingPair}
use cryptobot_algo.Parsers.Doc.{DocApi}
use cryptobot_algo.Positions.Executions.{ExecutionKind, ExecutionEvent}
use cryptobot_algo.Parsers.Executions.{
  bybit_execution_factory, is_key, make_execution, read_execution, parse_executions,
}

module _ (api : DocApi) (key_of : TradingPair → ℕ) where
  open api use {Doc}

  make_execution-first :
      (kind : Option ExecutionKind) (symbol : String) (price qty : ℤ) (rest : Option ExecutionEvent)
      (e : ExecutionEvent)
      → make_execution api key_of kind symbol price qty none ≡ some e
      → make_execution api key_of kind symbol price qty rest ≡ some e
  make_execution-first none symbol price qty rest e h = absurd (cc)
  make_execution-first (some kind) symbol price qty rest e h = h

  -- Where the first execution of a Bybit message is one that the parser knows, the message is parsed to
  -- this execution alone, whatever further executions it has.
  pub parse_executions-first :
      (item : Doc) (items : List Doc) (e : ExecutionEvent)
      → parse_executions api key_of (item ∷ []) ≡ some e
      → parse_executions api key_of (item ∷ items) ≡ some e
  unfolding parse_executions
  parse_executions-first item items e h = elim (Option-cases (read_execution api key_of item)) [
    | inl none_read ↦ let h' : none ≡ some e = rw none_read at h in absurd (cc)
    | inr (((category, side), symbol, price, qty), read) ↦ rw read (
        make_execution-first (find (is_key category side) bybit_execution_factory) symbol price qty
          _ e (rw read at h))
  ]
