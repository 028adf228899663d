-- ===== src/OrderBook/Tops/Exact.antt =====
-- What the export of the best levels writes, and what it says of it.
use cryptobot_algo.Base.{
  ℕ, zero, suc, ◌+◌, ◌≤◌, ◌<◌, ◌≡◌, ◌↔◌, refl, Bool, true, false, ◌||◌, List, [], ◌∷◌, arith, ltb,
  if◌then◌else◌, length, ◌∙◌,
}
use cryptobot_algo.OrderBook.Level.{Level}
use cryptobot_algo.OrderBook.Tops.{
  Quote, quote, differs, export_loop, update_top, update_top_price, update_top_n, update_top5,
}

-- The array after the export: the quotes of the best levels, at most `n`, then what stood there.
abbrev pub overlay : ℕ → List Level → List Quote → List Quote
overlay zero ls qs = qs
overlay (suc n) [] qs = qs
overlay (suc n) (l ∷ ls) [] = []
overlay (suc n) (l ∷ ls) (q ∷ qs) = quote l ∷ overlay n ls qs

-- Whether one of these quotes is new.
abbrev changed : ℕ → List Level → List Quote → Bool
changed zero ls qs = false
changed (suc n) [] qs = false
changed (suc n) (l ∷ ls) [] = false
changed (suc n) (l ∷ ls) (q ∷ qs) = differs q l || changed n ls qs

loop_quotes :
    (n i : ℕ) (ls : List Level) (qs : List Quote) (exist : Bool) (top : ℕ)
    → (export_loop n i ls qs exist top).quotes ≡ overlay n ls qs
unfolding export_loop
loop_quotes zero i ls qs exist top = refl
loop_quotes (suc n) i [] qs exist top = refl
loop_quotes (suc n) i (l ∷ ls) [] exist top = refl
loop_quotes (suc n) i (l ∷ ls) (q ∷ qs) exist top =
    let new = differs q l in
    ground (arith, loop_quotes n (i + 1) ls qs (exist || new) (if new then i else top))

loop_exist :
    (n i : ℕ) (ls : List Level) (qs : List Quote) (exist : Bool) (top : ℕ)
    → (export_loop n i ls qs exist top).update_exist ≡ (exist || changed n ls qs)
unfolding export_loop
loop_exist zero i ls qs exist top = ground arith
loop_exist (suc n) i [] qs exist top = ground arith
loop_exist (suc n) i (l ∷ ls) [] exist top = ground arith
loop_exist (suc n) i (l ∷ ls) (q ∷ qs) exist top =
    let new = differs q l in
    loop_exist n (i + 1) ls qs (exist || new) (if new then i else top)
    ∙ or_assoc exist new (changed n ls qs)
  where
    or_assoc : (a b c : Bool) → ((a || b) || c) ≡ (a || (b || c))
    or_assoc true b c = refl
    or_assoc false b c = refl

changed_iff :
    (n : ℕ) (ls : List Level) (qs : List Quote) → (changed n ls qs ≡ false) ↔ (overlay n ls qs ≡ qs)
changed_iff zero ls qs = (λ _. refl, λ _. refl)
changed_iff (suc n) [] qs = (λ _. refl, λ _. refl)
changed_iff (suc n) (l ∷ ls) [] = (λ _. refl, λ _. refl)
changed_iff (suc n) (l ∷ ls) (q ∷ qs) = ground (arith, changed_iff n ls qs)

-- A level that the loop reports lies among the exported ones, and behind it nothing changed.
loop_top :
    (n i : ℕ) (ls : List Level) (qs : List Quote) (exist : Bool) (top : ℕ)
    → changed n ls qs ≡ true
    → let m = (export_loop n i ls qs exist top).max_valid_lvl in
      (i ≤ m) × (m < i + n) × (m < i + length ls)
unfolding export_loop
loop_top zero i ls qs exist top h = cc
loop_top (suc n) i [] qs exist top h = cc
loop_top (suc n) i (l ∷ ls) [] exist top h = cc
loop_top (suc n) i (l ∷ ls) (q ∷ qs) exist top h =
    let new = differs q l in
    ground (
      arith,
      loop_top n (i + 1) ls qs (exist || new) (if new then i else top),
      loop_kept n (i + 1) ls qs (exist || new) (if new then i else top),
    )
  where
    loop_kept :
        (n i : ℕ) (ls : List Level) (qs : List Quote) (exist : Bool) (top : ℕ)
        → changed n ls qs ≡ false
        → (export_loop n i ls qs exist top).max_valid_lvl ≡ top
    loop_kept zero i ls qs exist top h = refl
    loop_kept (suc n) i [] qs exist top h = refl
    loop_kept (suc n) i (l ∷ ls) [] exist top h = refl
    loop_kept (suc n) i (l ∷ ls) (q ∷ qs) exist top h =
        let new = differs q l in
        ground (arith, loop_kept n (i + 1) ls qs (exist || new) (if new then i else top))

-- On an array of at least `n` quotes the first `n`, or as many as there are levels, become those of
-- the best levels and the others stay. The result is `false` exactly where this changes nothing; if
-- it is `true`, the index reported is one of those that were compared.
pub update_top_n-overlay :
    (n : ℕ) (ls : List Level) (qs : List Quote) (top : ℕ)
    → n ≤ length qs
    → let e = update_top_n n ls qs top in
      (e.quotes ≡ overlay n ls qs)
      × ((e.update_exist ≡ false) ↔ (e.quotes ≡ qs))
      × (e.update_exist ≡ true → (e.max_valid_lvl < n) × (e.max_valid_lvl < length ls))
unfolding update_top_n
update_top_n-overlay n ls qs top h =
    let enough : ltb (length qs) n ≡ false = ground arith in
    rw enough (
      ground (
        arith,
        loop_quotes n 0 ls qs false top,
        loop_exist n 0 ls qs false top,
        changed_iff n ls qs,
        loop_top n 0 ls qs false top,
      ))

differs_lem : (q : Quote) (l : Level) → (differs q l ≡ false) ↔ (quote l ≡ q)
differs_lem q l = ground arith

-- `UpdateTop…` and `UpdateTop…Price`: where there is a level, the caller's copy becomes the quote (or
-- the price) of the best one, and the result is `false` exactly where it was that already; where there
-- is none, it stays.
pub update_top-quote :
    (l : Level) (ls : List Level) (q : Quote) (p : ℕ)
    → ((update_top (l ∷ ls) q).1 ≡ quote l)
      × (((update_top (l ∷ ls) q).0 ≡ false) ↔ (quote l ≡ q))
      × ((update_top_price (l ∷ ls) p).1 ≡ l.price)
      × (((update_top_price (l ∷ ls) p).0 ≡ false) ↔ (l.price ≡ p))
      × (update_top [] q ≡ (false, q))
      × (update_top_price [] p ≡ (false, p))
unfolding update_top update_top_price
update_top-quote l ls q p = ground (arith, differs_lem q l)

-- `UpdateTop5…` on an array of five does what `UpdateTopN…` does for 5.
pub update_top5-update_top_n :
    (ls : List Level) (qs : List Quote) (top : ℕ)
    → length qs ≡ 5
    → update_top5 ls qs top ≡ update_top_n 5 ls qs top
unfolding update_top5 update_top_n
update_top5-update_top_n ls qs top h =
    let enough : ltb (length qs) 5 ≡ false = ground (arith, h) in rw enough refl
