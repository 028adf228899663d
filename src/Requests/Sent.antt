-- ===== src/Requests/Sent.antt =====
-- What is read back from the JSON of a request, and which requests have none.
use Prim.Native.String.{String}
use cryptobot_algo.Base.{
  ℕ, ◌≡◌, refl, ◌∙◌, Bool, true, false, Option, none, some, ltb, if◌then◌else◌,
}
use cryptobot_algo.Base.Int.{ℤ}
use cryptobot_algo.Base.Maps.{contains}
use cryptobot_algo.Base.Texts.{eqb_str}
use cryptobot_algo.Converters.{pair_index, convert_to_big, convert_from_big}
use cryptobot_algo.Converters.RoundTrips.{convert_from_big-to_big, convert_to_big-contains}
use cryptobot_algo.Requests.Json.{JsonApi}
use cryptobot_algo.Requests.{
  Printers, Request, CancelRequest, with_status, with_text, put_valid, order_json, accept,
  accept_cancel,
}

with_status-some :
    {A : Type 0} (p : Bool × String) (f : String → Option A) {a : A}
    → with_status p f ≡ some a
    → f p.1 ≡ some a
with_status-some (true, text) f h = h
with_status-some (false, text) f h = absurd (cc)

with_text-some :
    {A : Type 0} (o : Option String) (f : String → Option A) {a : A}
    → with_text o f ≡ some a
    → (text : String) × (o ≡ some text) × (f text ≡ some a)
with_text-some none f h = absurd (cc)
with_text-some (some text) f h = (text, refl, h)

with_status-contains :
    {A : Type 0} (p : Bool × String) (f : String → Option A)
    → p.0 ≡ true
    → contains (with_status p f) ≡ contains (f p.1)
with_status-contains (true, text) f h = refl
with_status-contains (false, text) f h = absurd (cc)

with_text-contains :
    {A : Type 0} (o : Option String) (f : String → Option A)
    → ((text : String) → contains (f text) ≡ true)
    → contains (with_text o f) ≡ contains o
with_text-contains none f h = refl
with_text-contains (some text) f h = h text

if_same : (b : Bool) (o : Option String) → (if b then o else o) ≡ o
if_same true o = refl
if_same false o = refl

module _ (api : JsonApi) (number : ℤ → String) (id_text : ℕ → String) where
  open api use {Json, null, put, at, at-put, at_null}

  at-put_valid :
      (key other : String) (p : Bool × String) (j : Json)
      → at other (put_valid api number id_text key p j)
        ≡ (if p.0 then if eqb_str key other then some p.1 else at other j else at other j)
  at-put_valid key other (true, text) j = at-put key other text j
  at-put_valid key other (false, text) j = refl

  at-put_lem :
      (key other text : String) (j : Json)
      → at other (put key text j) ≡ (if eqb_str key other then some text else at other j)
  at-put_lem = at-put

  at_null_lem : (key : String) → at key null ≡ none
  at_null_lem = at_null

  ruleset member_laws = (at-put_lem, at-put_valid, at_null_lem, if_same)

  module _ {Category Side OrderMode TimeInForce : Type 0}
      (printers : Printers Category Side OrderMode TimeInForce) where
    open printers use {
      category_to_string, side_to_string, order_mode_to_string, time_in_force_to_string,
    }

    -- The members of the JSON of an order.
    order_json-at :
        (r : Request Category Side OrderMode TimeInForce) (category symbol side mode : String)
        → let j = order_json api number id_text printers r category symbol side mode in
          let t = time_in_force_to_string r.time_in_force in
          (at "category" j ≡ some category)
          × (at "symbol" j ≡ some symbol)
          × (at "side" j ≡ some side)
          × (at "orderType" j ≡ some mode)
          × (at "qty" j ≡ some (number r.qty))
          × (at "price" j ≡ some (number r.price))
          × (at "orderLinkId" j ≡ some (id_text r.order_id))
          × (at "timeInForce" j ≡ (if t.0 then some t.1 else none))
    order_json-at r category symbol side mode = (
      simp member_laws,
      simp member_laws,
      simp member_laws,
      simp member_laws,
      simp member_laws,
      simp member_laws,
      simp at-put_lem,
      simp member_laws,
    )

    -- The JSON of an accepted order has the texts of its category, side, mode, time in force (only where
    -- that has one), quantity, price and id, and a symbol that is read as its trading pair.
    pub accept-reads_back :
        (r : Request Category Side OrderMode TimeInForce) (j : Json)
        → accept api number id_text printers r ≡ some j
        → let t = time_in_force_to_string r.time_in_force in
          (at "category" j ≡ some (category_to_string r.category).1)
          × (at "side" j ≡ some (side_to_string r.order_side).1)
          × (at "orderType" j ≡ some (order_mode_to_string r.order_mode).1)
          × (at "qty" j ≡ some (number r.qty))
          × (at "price" j ≡ some (number r.price))
          × (at "orderLinkId" j ≡ some (id_text r.order_id))
          × (at "timeInForce" j ≡ (if t.0 then some t.1 else none))
          × (name : String) × (at "symbol" j ≡ some name)
          × (convert_from_big name ≡ some r.trading_pair)
    unfolding accept
    accept-reads_back r j h =
        let a = with_status-some (category_to_string r.category) _ h in
        let (name, e, b) = with_text-some (convert_to_big r.trading_pair) _ a in
        let c = with_status-some (side_to_string r.order_side) _ b in
        let d = with_status-some (order_mode_to_string r.order_mode) _ c in
        let x : order_json api number id_text printers r (category_to_string r.category).1 name
              (side_to_string r.order_side).1 (order_mode_to_string r.order_mode).1
            ≡ j =
          cc in
        let m =
          order_json-at r (category_to_string r.category).1 name (side_to_string r.order_side).1
            (order_mode_to_string r.order_mode).1 in
        rw (← x) (
          m.0,
          m.2,
          m.3,
          m.4,
          m.5,
          m.6,
          m.7,
          name,
          m.1,
          convert_from_big-to_big r.trading_pair name e,
        )

    -- An order whose category, side and mode have texts is accepted just if its trading pair is one of
    -- the first three of the enumeration; so is a request to cancel an order whose category has a text.
    pub accept-contains :
        (r : Request Category Side OrderMode TimeInForce) (c : CancelRequest Category)
        → (category_to_string r.category).0 ≡ true
        → (side_to_string r.order_side).0 ≡ true
        → (order_mode_to_string r.order_mode).0 ≡ true
        → (category_to_string c.cancel_category).0 ≡ true
        → (contains (accept api number id_text printers r) ≡ ltb (pair_index r.trading_pair) 3)
          × (contains (accept_cancel api number id_text printers c)
              ≡ ltb (pair_index c.cancel_pair) 3)
    unfolding accept accept_cancel
    accept-contains r c category side mode cancelled = (
      with_status-contains (category_to_string r.category) _ category
          ∙ with_text-contains (convert_to_big r.trading_pair) _ (λ text.
            with_status-contains (side_to_string r.order_side) _ side
            ∙ with_status-contains (order_mode_to_string r.order_mode) _ mode)
          ∙ convert_to_big-contains r.trading_pair,
      with_status-contains (category_to_string c.cancel_category) _ cancelled
          ∙ with_text-contains (convert_to_big c.cancel_pair) _ (λ text. refl)
          ∙ convert_to_big-contains c.cancel_pair,
    )
