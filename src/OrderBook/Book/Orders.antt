-- ===== src/OrderBook/Book/Orders.antt =====
-- One order, and a run of orders, on one side of the book.
use cryptobot_algo.Base.{
  ℕ, ◌≡◌, ◌≢◌, refl, ap, ◌∙◌, Bool, Option, none, some, List, [], ◌∷◌, arith, ◌==◌, ltb,
  if◌then◌else◌, Bool-cases, inl, inr,
}
use cryptobot_algo.OrderBook.Level.{
  RawLevel, upsert, qty_at, IsStrictOrder, qty_at-upsert, qty_at-delete,
}
use cryptobot_algo.OrderBook.Interfaces.{AvlTree, BoostPool}
use cryptobot_algo.OrderBook.Side.{Side, remove_level, add_level}
use cryptobot_algo.OrderBook.Side.Room.{allocate-none, remove_level_room, add_level_room}
use cryptobot_algo.OrderBook.Side.Refine.{
  view, IsValid, Holds, Added, remove_level-Holds, add_level-Added,
}
use cryptobot_algo.OrderBook.Book.{add_order, add_orders, greater}

-- What a run of orders means for one price: the last order for it wins, and a quantity of 0 removes.
pub final_qty : ℕ → List RawLevel → Option ℕ → Option ℕ
final_qty r [] q = q
final_qty r (l ∷ ls) q =
    final_qty r ls (if l.price == r then (if l.qty == 0 then none else some l.qty) else q)

pub greater-IsStrictOrder : IsStrictOrder greater
greater-IsStrictOrder = ground arith

pub ltb-IsStrictOrder : IsStrictOrder ltb
ltb-IsStrictOrder = ground arith

-- A pool that never runs out of memory.
abbrev pub IsEndless : BoostPool → Type 0
IsEndless pools = (p : pools.Pool) → (pools.malloc p).0 ≢ none

module _ (trees : AvlTree) (pools : BoostPool) (endless : IsEndless pools) where
  -- A side that is valid and has room.
  pub record IsReady (before : ℕ → ℕ → Bool) (order : IsStrictOrder before) (s : Side trees pools)
      : Type 0 where
    pub valid : IsValid trees pools before order s
    pub room : s.pool_size ≢ 0

  module _ (before : ℕ → ℕ → Bool) (order : IsStrictOrder before) where
    -- A ready side in which the quantities are those of `q`.
    pub record Quotes (q : ℕ → Option ℕ) (s : Side trees pools) : Type 0 where
      pub ready : IsReady before order s
      pub quoted : (r : ℕ) → qty_at r (view trees pools before order s) ≡ q r

    abbrev AddQuotes : ℕ → Option ℕ → Side trees pools → Side trees pools → Type 0
    AddQuotes p o s s' =
        Quotes (λ r. if p == r then o else qty_at r (view trees pools before order s)) s'

    remove_order :
        (p : ℕ) (s : Side trees pools)
        → IsReady before order s
        → AddQuotes p none s (remove_level trees pools p s)
    remove_order p s h =
        let held = remove_level-Holds trees pools before order p s h.valid in
        record {
          ready = record {
            valid = held.valid;
            room = rw (remove_level_room trees pools p s) h.room;
          };
          quoted = λ r. rw held.viewed (qty_at-delete before order p r _ h.valid.sorted);
        }

    insert_order :
        (p q : ℕ) (s : Side trees pools) (out : Option (Side trees pools))
        → IsReady before order s
        → q ≢ 0
        → add_level trees pools before p q s ≡ out
        → (s' : Side trees pools) × (out ≡ some s') × AddQuotes p (some q) s s'
    insert_order p q s none h nz e =
        let failed : Added trees pools before order p q s none =
          rw e at (add_level-Added trees pools before order p q s h.valid) in
        absurd (endless s.pool (allocate-none trees pools s h.room failed.1))
    insert_order p q s (some s') h nz e =
        let held : Holds trees pools before order
            (upsert before p q (view trees pools before order s)) s' =
          rw e at (add_level-Added trees pools before order p q s h.valid) in
        (
          s',
          refl,
          record {
            ready = record {
              valid = held.valid;
              room = rw (add_level_room trees pools before p q s s' e) h.room;
            };
            quoted = λ r. rw held.viewed (qty_at-upsert before order p q r _);
          },
        )

    -- An order with a quantity writes it at its price, one without removes the price.
    add_order_lem :
        (p q : ℕ) (s : Side trees pools)
        → IsReady before order s
        → (s' : Side trees pools) × (add_order trees pools before p q s ≡ some s')
          × AddQuotes p (if q == 0 then none else some q) s s'
    unfolding add_order
    add_order_lem p q s h = elim (Bool-cases (q == 0)) [
      | inl z ↦ (remove_level trees pools p s, rw z, rw z (remove_order p s h))
      | inr nz ↦ rw nz (insert_order p q s _ h (ground arith) refl)
    ]

    -- A run of orders.
    pub add_orders-Quotes :
        (ls : List RawLevel) (s : Side trees pools)
        → IsReady before order s
        → (s' : Side trees pools) × (add_orders trees pools before ls s ≡ some s')
          × Quotes (λ r. final_qty r ls (qty_at r (view trees pools before order s))) s'
    unfolding add_orders final_qty
    add_orders-Quotes [] s h = (s, refl, record { ready = h; quoted = λ r. refl })
    add_orders-Quotes (l ∷ ls) s h =
        let (s₁, e₁, q₁) = add_order_lem l.price l.qty s h in
        let (s₂, e₂, q₂) = add_orders-Quotes ls s₁ q₁.ready in
        (
          s₂,
          rw (add_orders, e₁) e₂,
          record {
            ready = q₂.ready;
            quoted = λ r. q₂.quoted r ∙ ap (final_qty r ls) (q₁.quoted r);
          },
        )
