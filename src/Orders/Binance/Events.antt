-- ===== src/Orders/Binance/Events.antt =====
-- What the events of Binance do to the orders of a manager.
use cryptobot_algo.Base.{
  ℕ, Bool-cases, inl, inr, ◌∙◌, ◌^◌, ◌<◌, ◌≡◌, ◌≢◌, refl, Bool, true, false, none, if◌then◌else◌,
}
use cryptobot_algo.Base.Maps.{contains}
use cryptobot_algo.Orders.{nothing}
use cryptobot_algo.Orders.Storage
use cryptobot_algo.Orders.Storage.Maps.{IsUnique, Keeps, update-Keeps}
use cryptobot_algo.Orders.Manager.{Manager, manager_mutator, update_status, update_state, remove}
use cryptobot_algo.Orders.Manager.Live.{Live, Live-IsUnique, removed}
use cryptobot_algo.Orders.Binance.{
  Category, OrderStatus, order_status_invalid, Kind, OrderEvent, accept_kind, accept, on_response,
  leaves_qty,
}

-- The events after which an order is closed.
abbrev pub is_final : Kind → Bool
is_final Kind.filled = true
is_final Kind.cancelled = true
is_final Kind.rejected = true
is_final Kind.expired = true
is_final Kind.expired_in_match = true
is_final _ = false

history :
    {n : ℕ} {m : Manager Category OrderStatus} (kind : Kind) (e : OrderEvent)
    → Live n m
    → (is_final kind ≡ true → Storage.get e.order_id m.storage ≢ none)
    → Live n (accept_kind manager_mutator kind e m)
unfolding accept_kind
history Kind.unknown e l h = l
history Kind.pending_cancel e l h = l
history Kind.new e l h = Live.status l e.order_id OrderStatus.new nothing
history Kind.pending_new e l h = Live.status l e.order_id OrderStatus.pending_new nothing
history Kind.partially_filled e l h =
    Live.state (Live.status l e.order_id OrderStatus.partially_filled nothing) e.order_id e.price
      (leaves_qty e)
history Kind.filled e l h = Live.ending l e.order_id (h refl)
history Kind.cancelled e l h = Live.ending l e.order_id (h refl)
history Kind.rejected e l h = Live.ending l e.order_id (h refl)
history Kind.expired e l h = Live.ending l e.order_id (h refl)
history Kind.expired_in_match e l h = Live.ending l e.order_id (h refl)

changed :
    (kind : Kind) (e : OrderEvent) (m : Manager Category OrderStatus)
    → IsUnique m.storage
    → is_final kind ≡ false
    → Keeps e.order_id m.storage (accept_kind manager_mutator kind e m).storage
unfolding accept_kind update_status update_state
changed Kind.unknown e m u h = ((λ j. refl), (λ j other. refl))
changed Kind.pending_cancel e m u h = ((λ j. refl), (λ j other. refl))
changed Kind.new e m u h =
    (update-Keeps e.order_id OrderStatus.new nothing e.price e.price m.storage).0
changed Kind.pending_new e m u h =
    (update-Keeps e.order_id OrderStatus.pending_new nothing e.price e.price m.storage).0
changed Kind.partially_filled e m u h =
    let (same, other) =
      (update-Keeps e.order_id OrderStatus.partially_filled nothing e.price e.price m.storage).0 in
    let s = Storage.update_status e.order_id OrderStatus.partially_filled nothing m.storage in
    let (same', other') =
      (update-Keeps e.order_id OrderStatus.invalid nothing e.price (leaves_qty e) s).1 in
    ((λ j. same' j ∙ same j), (λ j d. other' j d ∙ other j d))
changed Kind.filled e m u h = absurd (cc)
changed Kind.cancelled e m u h = absurd (cc)
changed Kind.rejected e m u h = absurd (cc)
changed Kind.expired e m u h = absurd (cc)
changed Kind.expired_in_match e m u h = absurd (cc)

ended :
    (kind : Kind) (e : OrderEvent) (m : Manager Category OrderStatus)
    → is_final kind ≡ true
    → accept_kind manager_mutator kind e m ≡ remove e.order_id m
unfolding accept_kind
ended Kind.filled e m h = refl
ended Kind.cancelled e m h = refl
ended Kind.rejected e m h = refl
ended Kind.expired e m h = refl
ended Kind.expired_in_match e m h = refl
ended Kind.unknown e m h = absurd (cc)
ended Kind.pending_cancel e m h = absurd (cc)
ended Kind.new e m h = absurd (cc)
ended Kind.pending_new e m h = absurd (cc)
ended Kind.partially_filled e m h = absurd (cc)

-- In a history of fewer than 2^64 placements, in which only stored orders end, every event of the
-- exchange continues the history where a final event is about a stored order. It leaves the other
-- orders as they were; the order it is about is stored after it just if it was before and the event
-- is not final.
pub on_response-Live :
    {n : ℕ} {m : Manager Category OrderStatus} (e : OrderEvent)
    → Live n m
    → n < 2 ^ 64
    → (is_final e.kind ≡ true → Storage.get e.order_id m.storage ≢ none)
    → let m' = on_response e m in
      Live n m'
      × ((j : ℕ) → e.order_id ≢ j → Storage.get j m'.storage ≡ Storage.get j m.storage)
      × (contains (Storage.get e.order_id m'.storage)
          ≡ (if is_final e.kind then false else contains (Storage.get e.order_id m.storage)))
unfolding on_response accept
on_response-Live {m = m} e l b h = elim (Bool-cases (is_final e.kind)) [
  | inl final ↦
      let (gone, rest) = removed e.order_id m (Live-IsUnique l b) in
      (
        history e.kind e l h,
        rw (ended e.kind e m final) rest,
        rw (final, ended e.kind e m final, gone) refl,
      )
  | inr active ↦
      let (same, other) = changed e.kind e m (Live-IsUnique l b) active in
      (history e.kind e l h, other, rw active (same e.order_id))
]
