-- ===== src/Triplets/Linked.antt =====
-- The pairs of an asset against the assets that it was connected with.
use cryptobot_algo.Base.{
  ℕ, ◌≡◌, refl, ◌∙◌, Bool, false, ◌||◌, ◌&&◌, List, [], ◌∷◌, ◌++◌, arith, ◌==◌, if◌then◌else◌,
  Bool-cases, inl, inr,
}
use cryptobot_algo.Triplets.{
  MarketTripletManager, new_market_triplet_manager, member, put, put_pair, connect, get_pairs,
  has_pair, connect_all,
}

-- One of the links is between the two assets.
unfoldable pub linked : ℕ → ℕ → List (ℕ × ℕ) → Bool
linked x y [] = false
linked x y ((a, b) ∷ links) =
    let rest = linked x y links in ((a == x) && (b == y)) || ((b == x) && (a == y)) || rest

-- One of the links has the asset at one end.
unfoldable pub touched : ℕ → List (ℕ × ℕ) → Bool
touched x [] = false
touched x ((a, b) ∷ links) = let rest = touched x links in (a == x) || (b == x) || rest

member-append : (z y : ℕ) (ys : List ℕ) → member z (ys ++ y ∷ []) ≡ (member z ys || (y == z))
unfolding member
member-append z y [] = ground arith
member-append z y (x ∷ ys) = ground (arith, member-append z y ys)

member-put : (z y : ℕ) (ys : List ℕ) → member z (put y ys) ≡ ((y == z) || member z ys)
unfolding put
member-put z y ys = elim (Bool-cases (member y ys)) [
  | inl old ↦ rw old (elim (Bool-cases (y == z)) [
    | inl same ↦ let e : y ≡ z = ground arith in rw (same, ← e) old
    | inr other ↦ rw other refl
  ])
  | inr new ↦ rw new (member-append z y ys ∙ ground arith)
]

get_pairs-put_pair :
    (x y z : ℕ) (m : MarketTripletManager)
    → get_pairs z (put_pair x y m) ≡ (if x == z then put y (get_pairs x m) else get_pairs z m)
unfolding get_pairs put_pair
get_pairs-put_pair x y z m = ground arith

-- The pairs of an asset, after a connection.
member-connect :
    (x y z u : ℕ) (m : MarketTripletManager)
    → member u (get_pairs z (connect x y m))
      ≡ (((x == z) && (y == u)) || ((y == z) && (x == u)) || member u (get_pairs z m))
unfolding connect
member-connect x y z u m = ground (
  arith,
  get_pairs-put_pair y x z (put_pair x y m),
  get_pairs-put_pair x y z m,
  get_pairs-put_pair x y y m,
  member-put u x (get_pairs y (put_pair x y m)),
  member-put u y (get_pairs x m),
  member-put u x (get_pairs y m),
)

has_pair-connect :
    (x y z : ℕ) (m : MarketTripletManager)
    → has_pair z (connect x y m) ≡ ((x == z) || (y == z) || has_pair z m)
unfolding has_pair connect put_pair
has_pair-connect x y z m = ground arith

connect_all-from :
    (links : List (ℕ × ℕ)) (x y : ℕ) (m : MarketTripletManager)
    → (member y (get_pairs x (connect_all links m))
        ≡ (linked x y links || member y (get_pairs x m)))
      × (has_pair x (connect_all links m) ≡ (touched x links || has_pair x m))
unfolding connect_all linked touched
connect_all-from [] x y m = (refl, refl)
connect_all-from ((a, b) ∷ links) x y m =
    let (pairs, has) = connect_all-from links x y (connect a b m) in
    (ground (arith, pairs, member-connect a b x y m), ground (arith, has, has_pair-connect a b x m))

linked_comm : (links : List (ℕ × ℕ)) (x y : ℕ) → linked x y links ≡ linked y x links
unfolding linked
linked_comm [] x y = refl
linked_comm ((a, b) ∷ links) x y = ground (arith, linked_comm links x y)

-- After any history of connections an asset is among the pairs of another just if one of the
-- connections was between them, in either order, so just if the other is among its pairs; and an asset
-- has a pair just if it was connected with some asset.
pub get_pairs-linked :
    (links : List (ℕ × ℕ)) (x y : ℕ)
    → let m = connect_all links new_market_triplet_manager in
      (member y (get_pairs x m) ≡ linked x y links)
      × (member x (get_pairs y m) ≡ linked x y links)
      × (has_pair x m ≡ touched x links)
get_pairs-linked links x y =
    let (here, has) = connect_all-from links x y new_market_triplet_manager in
    let (there, _) = connect_all-from links y x new_market_triplet_manager in
    unfold get_pairs has_pair member in
    (ground (arith, here), ground (arith, there, linked_comm links x y), ground (arith, has))
