-- ===== src/OrderBook/Level.antt =====
-- The levels of an order book, and what one side of it is for its users: the list of its levels, the
-- best first, with at most one level for each price.
use cryptobot_algo.Base.{
  ℕ, ◌≡◌, refl, Bool, true, false, Option, none, some, List, [], ◌∷◌, arith, ◌==◌, if◌then◌else◌,
  All,
}

-- aos/order_book_level_raw/order_book_level_raw.h: an entry of an event.
pub record RawLevel : Type 0 where
  pub price : ℕ
  pub qty : ℕ

-- aos/order_book_level/order_book_level.h, without the hook of the intrusive tree.
pub record Level : Type 0 where
  pub price : ℕ
  pub qty : ℕ

abbrev pub level : ℕ → ℕ → Level
level p q = record { price = p; qty = q }

-- The specification of one side.
unfoldable pub delete : ℕ → List Level → List Level
delete p [] = []
delete p (l ∷ ls) = if l.price == p then ls else l ∷ delete p ls

unfoldable pub qty_at : ℕ → List Level → Option ℕ
qty_at p [] = none
qty_at p (l ∷ ls) = if l.price == p then some l.qty else qty_at p ls

-- A strict total order on prices, as a test.
pub record IsStrictOrder (before : ℕ → ℕ → Bool) : Type 0 where
  pub irrefl : (x : ℕ) → before x x ≡ false
  pub trans : (x y z : ℕ) → before x y ≡ true → before y z ≡ true → before x z ≡ true
  pub connected : (x y : ℕ) → before x y ≡ false → before y x ≡ false → x ≡ y

module _ (before : ℕ → ℕ → Bool) where
  unfoldable pub upsert : ℕ → ℕ → List Level → List Level
  upsert p q [] = level p q ∷ []
  upsert p q (l ∷ ls) =
      if l.price == p
      then level p q ∷ ls
      else if before p l.price
      then level p q ∷ l ∷ ls
      else l ∷ upsert p q ls

  abbrev pub Behind : ℕ → List Level → Type 0
  Behind p = All (λ l. before p l.price ≡ true)

  abbrev pub IsSorted : List Level → Type 0
  IsSorted [] = Unit
  IsSorted (l ∷ ls) = Behind l.price ls × IsSorted ls

module _ (before : ℕ → ℕ → Bool) (order : IsStrictOrder before) where
  pub Behind-trans :
      (p x : ℕ) (ls : List Level) → before p x ≡ true → Behind before x ls → Behind before p ls
  Behind-trans p x [] h b = tt
  Behind-trans p x (l ∷ ls) h (b, bs) = (order.trans p x l.price h b, Behind-trans p x ls h bs)

  upsert-Behind :
      (x p q : ℕ) (ls : List Level)
      → before x p ≡ true
      → Behind before x ls
      → Behind before x (upsert before p q ls)
  unfolding upsert
  upsert-Behind x p q [] h b = (h, tt)
  upsert-Behind x p q (l ∷ ls) h (b, bs) = ground (arith, upsert-Behind x p q ls h bs)

  -- The specification keeps the levels in order.
  pub upsert-IsSorted :
      (p q : ℕ) (ls : List Level) → IsSorted before ls → IsSorted before (upsert before p q ls)
  unfolding upsert
  upsert-IsSorted p q [] s = (tt, tt)
  upsert-IsSorted p q (l ∷ ls) (b, s) = ground (
    arith,
    upsert-IsSorted p q ls s,
    upsert-Behind l.price p q ls,
    Behind-trans p l.price ls,
    order.connected p l.price,
  )

  delete-Behind : (x p : ℕ) (ls : List Level) → Behind before x ls → Behind before x (delete p ls)
  unfolding delete
  delete-Behind x p [] b = tt
  delete-Behind x p (l ∷ ls) (b, bs) = ground (arith, delete-Behind x p ls bs)

  pub delete-IsSorted :
      (p : ℕ) (ls : List Level) → IsSorted before ls → IsSorted before (delete p ls)
  unfolding delete
  delete-IsSorted p [] s = tt
  delete-IsSorted p (l ∷ ls) (b, s) =
      ground (arith, delete-IsSorted p ls s, delete-Behind l.price p ls b)

  qty_at-Behind : (p : ℕ) (ls : List Level) → Behind before p ls → qty_at p ls ≡ none
  unfolding qty_at
  qty_at-Behind p [] b = refl
  qty_at-Behind p (l ∷ ls) (b, bs) = ground (arith, qty_at-Behind p ls bs, order.irrefl p)

  -- Seen as a map from prices, the specification writes and erases one key.
  pub qty_at-upsert :
      (p q r : ℕ) (ls : List Level)
      → qty_at r (upsert before p q ls) ≡ (if p == r then some q else qty_at r ls)
  unfolding qty_at upsert
  qty_at-upsert p q r [] = refl
  qty_at-upsert p q r (l ∷ ls) = ground (arith, qty_at-upsert p q r ls)

  pub qty_at-delete :
      (p r : ℕ) (ls : List Level)
      → IsSorted before ls
      → qty_at r (delete p ls) ≡ (if p == r then none else qty_at r ls)
  unfolding qty_at delete
  qty_at-delete p r [] s = ground arith
  qty_at-delete p r (l ∷ ls) (b, s) = ground (arith, qty_at-delete p r ls s, qty_at-Behind r ls)
