-- ===== src/Orders/Bybit/Events.antt =====
-- What the events of Bybit do to the orders of a manager.
use cryptobot_algo.Base.{
  ℕ, Bool-cases, inl, inr, ◌∙◌, ◌^◌, ◌<◌, ◌≡◌, ◌≢◌, refl, Bool, true, false, none, if◌then◌else◌,
}
use cryptobot_algo.Base.Maps.{contains}
use cryptobot_algo.Orders.{nothing}
use cryptobot_algo.Orders.Storage
use cryptobot_algo.Orders.Storage.Maps.{IsUnique, Keeps, update-Keeps}
use cryptobot_algo.Orders.Manager.{Manager, manager_mutator, update_status, update_state, remove}
use cryptobot_algo.Orders.Manager.Live.{Live, Live-IsUnique, removed}
use cryptobot_algo.Orders.Bybit.{
  Category, OrderStatus, order_status_invalid, Kind, OrderEvent, accept_kind, accept, on_response,
  on_event,
}

-- The events after which an order is closed.
abbrev pub is_final : Kind → Bool
is_final Kind.rejected = true
is_final Kind.partially_filled_cancelled = true
is_final Kind.filled = true
is_final Kind.cancelled = true
is_final Kind.triggered = true
is_final Kind.deactivated = true
is_final _ = false

history :
    {n : ℕ} {m : Manager Category OrderStatus} (kind : Kind) (e : OrderEvent)
    → Live n m
    → (is_final kind ≡ true → Storage.get e.order_id m.storage ≢ none)
    → Live n (accept_kind manager_mutator kind e m)
unfolding accept_kind
history Kind.unknown e l h = l
history Kind.new e l h = Live.status l e.order_id OrderStatus.new nothing
history Kind.untriggered e l h = Live.status l e.order_id OrderStatus.untriggered nothing
history Kind.partially_filled e l h =
    Live.state (Live.status l e.order_id OrderStatus.partially_filled nothing) e.order_id e.price
      (e.leaves_qty)
history Kind.rejected e l h = Live.ending l e.order_id (h refl)
history Kind.partially_filled_cancelled e l h = Live.ending l e.order_id (h refl)
history Kind.filled e l h = Live.ending l e.order_id (h refl)
history Kind.cancelled e l h = Live.ending l e.order_id (h refl)
history Kind.triggered e l h = Live.ending l e.order_id (h refl)
history Kind.deactivated e l h = Live.ending l e.order_id (h refl)

changed :
    (kind : Kind) (e : OrderEvent) (m : Manager Category OrderStatus)
    → IsUnique m.storage
    → is_final kind ≡ false
    → Keeps e.order_id m.storage (accept_kind manager_mutator kind e m).storage
unfolding accept_kind update_status update_state
changed Kind.unknown e m u h = ((λ j. refl), (λ j other. refl))
changed Kind.new e m u h =
    (update-Keeps e.order_id OrderStatus.new nothing e.price e.price m.storage).0
changed Kind.untriggered e m u h =
    (update-Keeps e.order_id OrderStatus.untriggered nothing e.price e.price m.storage).0
changed Kind.partially_filled e m u h =
    let (same, other) =
      (update-Keeps e.order_id OrderStatus.partially_filled nothing e.price e.price m.storage).0 in
    let s = Storage.update_status e.order_id OrderStatus.partially_filled nothing m.storage in
    let (same', other') =
      (update-Keeps e.order_id OrderStatus.invalid nothing e.price e.leaves_qty s).1 in
    ((λ j. same' j ∙ same j), (λ j d. other' j d ∙ other j d))
changed Kind.rejected e m u h = absurd (cc)
changed Kind.partially_filled_cancelled e m u h = absurd (cc)
changed Kind.filled e m u h = absurd (cc)
changed Kind.cancelled e m u h = absurd (cc)
changed Kind.triggered e m u h = absurd (cc)
changed Kind.deactivated e m u h = absurd (cc)

ended :
    (kind : Kind) (e : OrderEvent) (m : Manager Category OrderStatus)
    → is_final kind ≡ true
    → accept_kind manager_mutator kind e m ≡ remove e.order_id m
unfolding accept_kind
ended Kind.rejected e m h = refl
ended Kind.partially_filled_cancelled e m h = refl
ended Kind.filled e m h = refl
ended Kind.cancelled e m h = refl
ended Kind.triggered e m h = refl
ended Kind.deactivated e m h = refl
ended Kind.unknown e m h = absurd (cc)
ended Kind.new e m h = absurd (cc)
ended Kind.untriggered e m h = absurd (cc)
ended Kind.partially_filled e m h = absurd (cc)

-- In a history of fewer than 2^64 placements, in which only stored orders end, every event of the
-- exchange continues the history where a final event is about a stored order. It leaves the other
-- orders as they were; the order it is about is stored after it just if it was before and the event
-- is not final.
pub on_event-Live :
    {n : ℕ} {m : Manager Category OrderStatus} (e : OrderEvent)
    → Live n m
    → n < 2 ^ 64
    → (is_final e.kind ≡ true → Storage.get e.order_id m.storage ≢ none)
    → let m' = on_event e m in
      Live n m'
      × ((j : ℕ) → e.order_id ≢ j → Storage.get j m'.storage ≡ Storage.get j m.storage)
      × (contains (Storage.get e.order_id m'.storage)
          ≡ (if is_final e.kind then false else contains (Storage.get e.order_id m.storage)))
unfolding on_response accept
on_event-Live {m = m} e l b h = elim (Bool-cases (is_final e.kind)) [
  | inl final ↦
      let (gone, rest) = removed e.order_id m (Live-IsUnique l b) in
      (
        history e.kind e l h,
        rw (ended e.kind e m final) rest,
        rw (final, ended e.kind e m final, gone) refl,
      )
  | inr active ↦
      let (same, other) = changed e.kind e m (Live-IsUnique l b) active in
      (history e.kind e l h, other, rw active (same e.order_id))
]
