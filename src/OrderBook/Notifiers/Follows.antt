-- ===== src/OrderBook/Notifiers/Follows.antt =====
-- What a callback hears of the best level.
use cryptobot_algo.Base.{ℕ, ◌≡◌, ◌≢◌, refl, sym, ap, ◌∙◌, List, [], ◌∷◌, Bool-cases, inl, inr}
use cryptobot_algo.OrderBook.Level.{Level, level}
use cryptobot_algo.OrderBook.Tops.{Quote, quote, update_top, update_top_price}
use cryptobot_algo.OrderBook.Tops.Exact.{update_top-quote}
use cryptobot_algo.OrderBook.Notifiers.{
  QuoteNotifier, process_update, process_updates, PriceNotifier, process_price_update,
  process_price_updates,
}

module _ {A : Type 0} where
  -- What the last call was told, or the value at the start.
  abbrev pub latest : A → List A → A
  latest start [] = start
  latest start (c ∷ calls) = c

  -- No call was told what the one before it was told.
  abbrev pub Changes : A → List A → Type 0
  Changes start [] = Unit
  Changes start (c ∷ calls) = (c ≢ latest start calls) × Changes start calls

-- The best quote of the last view with a level, or the one at the start.
unfoldable pub current : Quote → List (List Level) → Quote
current q [] = q
current q ([] ∷ views) = current q views
current q ((l ∷ ls) ∷ views) = current (quote l) views

unfoldable pub current_price : ℕ → List (List Level) → ℕ
current_price p [] = p
current_price p ([] ∷ views) = current_price p views
current_price p ((l ∷ ls) ∷ views) = current_price l.price views

-- A notifier whose last call told what it holds.
abbrev Told : {A : Type 0} → A → A → List A → Type 0
Told start best calls = (best ≡ latest start calls) × Changes start calls

process_update-Told :
    (start : Quote) (l : Level) (ls : List Level) (n : QuoteNotifier)
    → Told start n.best n.calls
    → Told start (process_update (l ∷ ls) n).best (process_update (l ∷ ls) n).calls
      × ((process_update (l ∷ ls) n).best ≡ quote l)
unfolding process_update
process_update-Told start l ls n (e, c) =
    let (now, same, _, _, _, _) = update_top-quote l ls n.best 0 in
    elim (Bool-cases (update_top (l ∷ ls) n.best).0) [
      | inl changed ↦
          rw changed
            (((refl, ((λ back. let stays = same.1 (sym now ∙ back ∙ sym e) in cc), c)), now))
      | inr kept ↦ rw kept ((now ∙ same.0 kept ∙ e, c), now)
    ]

process_price_update-Told :
    (start : ℕ) (l : Level) (ls : List Level) (n : PriceNotifier)
    → Told start n.best_price n.price_calls
    → Told start
        (process_price_update (l ∷ ls) n).best_price
        (process_price_update (l ∷ ls) n).price_calls
      × ((process_price_update (l ∷ ls) n).best_price ≡ l.price)
unfolding process_price_update
process_price_update-Told start l ls n (e, c) =
    let (_, _, now, same, _, _) =
      update_top-quote l ls (record { price = 0; qty = 0 }) n.best_price in
    elim (Bool-cases (update_top_price (l ∷ ls) n.best_price).0) [
      | inl changed ↦
          rw changed
            (((refl, ((λ back. let stays = same.1 (sym now ∙ back ∙ sym e) in cc), c)), now))
      | inr kept ↦ rw kept ((now ∙ same.0 kept ∙ e, c), now)
    ]

abbrev empty_level : Level
empty_level = level 0 0

-- A view with no level changes nothing.
process_nothing :
    (n : QuoteNotifier) (m : PriceNotifier)
    → (process_update [] n ≡ n) × (process_price_update [] m ≡ m)
unfolding process_update process_price_update
process_nothing n m =
    let (_, _, _, _, none_quote, none_price) =
      update_top-quote empty_level [] n.best m.best_price in
    (rw none_quote refl, rw none_price refl)

process_updates-Told :
    (views : List (List Level)) (start : Quote) (n : QuoteNotifier)
    → Told start n.best n.calls
    → Told start (process_updates views n).best (process_updates views n).calls
      × ((process_updates views n).best ≡ current n.best views)
unfolding process_updates current
process_updates-Told [] start n t = (t, refl)
process_updates-Told ([] ∷ views) start n t =
    let (same, _) = process_nothing n (record { best_price = 0; price_calls = [] }) in
    rw (same, process_updates) (process_updates-Told views start n t)
process_updates-Told ((l ∷ ls) ∷ views) start n t =
    let (t', now) = process_update-Told start l ls n t in
    let (told, last) = process_updates-Told views start (process_update (l ∷ ls) n) t' in
    (told, last ∙ ap (λ (q : Quote). current q views) now)

process_price_updates-Told :
    (views : List (List Level)) (start : ℕ) (n : PriceNotifier)
    → Told start n.best_price n.price_calls
    → Told start
        (process_price_updates views n).best_price
        (process_price_updates views n).price_calls
      × ((process_price_updates views n).best_price ≡ current_price n.best_price views)
unfolding process_price_updates current_price
process_price_updates-Told [] start n t = (t, refl)
process_price_updates-Told ([] ∷ views) start n t =
    let (_, same) =
      process_nothing (record { best = record { price = 0; qty = 0 }; calls = [] }) n in
    rw (same, process_price_updates) (process_price_updates-Told views start n t)
process_price_updates-Told ((l ∷ ls) ∷ views) start n t =
    let (t', now) = process_price_update-Told start l ls n t in
    let (told, last) =
      process_price_updates-Told views start (process_price_update (l ∷ ls) n) t' in
    (told, last ∙ ap (λ (p : ℕ). current_price p views) now)

-- Whatever a new notifier of a best quote holds at the start, after any updates of the book the last
-- call of its callback was told the best quote of the last update at which the side had a level, and
-- no call was told what the one before it was told; what it held at the start counts as told before
-- the first call. So it is for a notifier of a best price.
pub process_updates-latest :
    (views : List (List Level)) (start : Quote) (start_price : ℕ)
    → let n = process_updates views (record { best = start; calls = [] }) in
      let m = process_price_updates views (record { best_price = start_price; price_calls = [] }) in
      (latest start n.calls ≡ current start views)
      × Changes start n.calls
      × (latest start_price m.price_calls ≡ current_price start_price views)
      × Changes start_price m.price_calls
process_updates-latest views start start_price =
    let ((e, c), now) =
      process_updates-Told views start (record { best = start; calls = [] }) (refl, tt) in
    let ((e', c'), now') =
      process_price_updates-Told views start_price
        (record { best_price = start_price; price_calls = [] }) (refl, tt) in
    (sym e ∙ now, c, sym e' ∙ now', c')
