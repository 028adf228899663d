-- ===== src/Tests/Notifiers.antt =====
-- A notifier that starts with what its memory holds.
use cryptobot_algo.Base.{ℕ, ◌≡◌, refl, [], ◌∷◌}
use cryptobot_algo.OrderBook.Notifiers.{
  BookNotifier, notifier_on_event, add_subscriber, remove_subscriber, book_event, book_update,
}

-- Of two subscribers one is removed; an event goes to the book and then to the other.
one_left :
    let start : BookNotifier ℕ = record { subscribers = []; made = [] } in
    (notifier_on_event 7 (remove_subscriber 1 (add_subscriber 2 (add_subscriber 1 start)))).made
    ≡ book_update 2 ∷ book_event 7 ∷ []
unfolding notifier_on_event remove_subscriber add_subscriber
one_left = refl
