-- ===== src/Parsers/Levels.antt =====
-- The parsers of order book messages: parser/json/ws/diff_response/parser.h and
-- parser/json/rest/snapshot_response/parser.h of Binance, and parser/json/ws/order_book_response of
-- Bybit. The clock, which only the log shows, is left out.
use Prim.Native.String.{String}
use cryptobot_algo.Base.{ℕ, Option, none, some, List, [], ◌∷◌}
use cryptobot_algo.Base.Texts.{eqb_str, find}
use cryptobot_algo.Converters.{pair_index, convert_from_big}
use cryptobot_algo.Parsers.Doc.{DocApi, ◌>>=◌, ◌>>◌, guard}
use cryptobot_algo.OrderBook.Level.{RawLevel}
use cryptobot_algo.Binance.Events.{Snapshot, Diff}
use cryptobot_algo.Bybit.Sync as Bybit

-- The classes of Binance: the futures diffs have a previous update id too.
pub data Market : Type 0 where
  spot futures : Market

-- The classes of Bybit's events, by the text of their type.
abbrev pub book_factory : List (String × (Bybit.Event → Bybit.Input))
book_factory = ("snapshot", Bybit.got_snapshot) ∷ ("delta", Bybit.got_diff) ∷ []

module _ (api : DocApi) where
  open api use {Doc, get_string, get_uint64, get_object, get_array, first, second}

  abbrev pub parse_level : Doc → Option RawLevel
  parse_level entry =
      first entry >>= λ price. second entry >>= λ qty. some (record { price = price; qty = qty })

  -- The loop over the entries of a side.
  unfoldable pub parse_levels : List Doc → Option (List RawLevel)
  parse_levels [] = some []
  parse_levels (entry ∷ entries) =
      let rest = parse_levels entries in
      parse_level entry >>= λ level. rest >>= λ levels. some (level ∷ levels)

  -- A side that is missing is no error, and leaves no level in the event.
  abbrev pub parse_array : Option (List Doc) → Option (List RawLevel)
  parse_array none = some []
  parse_array (some entries) = parse_levels entries

  unfoldable pub parse_side : String → Doc → Option (List RawLevel)
  unfolding parse_levels
  parse_side key doc = parse_array (get_array key doc)

  abbrev pub previous_id : Market → Doc → Option ℕ
  previous_id spot doc = some 0
  previous_id futures doc = get_uint64 "pu" doc

  -- `DiffEventParserBase::ParseAndCreate`.
  unfoldable pub parse_diff : Market → Doc → Option Diff
  unfolding parse_side convert_from_big pair_index
  parse_diff market doc = do
    event_type ← get_string "e" doc
    guard (eqb_str event_type "depthUpdate")
    event_time ← get_uint64 "E" doc
    final ← get_uint64 "u" doc
    first_id ← get_uint64 "U" doc
    previous ← previous_id market doc
    symbol ← get_string "s" doc
    pair ← convert_from_big symbol
    bids ← parse_side "b" doc
    asks ← parse_side "a" doc
    some (record {
      first_update_id = first_id;
      final_update_id = final;
      previous_update_id = previous;
      trading_pair = pair_index pair;
      bids = bids;
      asks = asks;
    })

  -- The pair is set by the listener.
  unfoldable pub parse_snapshot : ℕ → Doc → Option Snapshot
  unfolding parse_side
  parse_snapshot trading_pair doc = do
    update_id ← get_uint64 "lastUpdateId" doc
    bids ← parse_side "bids" doc
    asks ← parse_side "asks" doc
    some (record { update_id = update_id; trading_pair = trading_pair; bids = bids; asks = asks })

  -- The event of Bybit, as what its synchroniser is given. Its trading pair is only checked, since the
  -- synchroniser does not read it.
  unfoldable pub parse_book_event : Doc → Option Bybit.Input
  unfolding parse_side convert_from_big
  parse_book_event doc = do
    event_type ← get_string "type" doc
    content ← get_object "data" doc
    make ← find (λ k. eqb_str k event_type) book_factory
    update_id ← get_uint64 "u" content
    symbol ← get_string "s" content
    pair ← convert_from_big symbol
    bids ← parse_side "b" content
    asks ← parse_side "a" content
    some (make (record { update_id = update_id; bids = bids; asks = asks }))
