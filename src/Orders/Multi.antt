-- ===== src/Orders/Multi.antt =====
-- aos/multi_order_manager/multi_order_manager.h: the order manager of each exchange, by the number of
-- the exchange. `M` is the type of the managers, and `none` is the exception of `at` for an exchange
-- that was not registered.
use cryptobot_algo.Base.{ℕ, ◌≡◌, ◌≢◌, Option, none, some, arith, Option-cases, ◌⊎◌, inl, inr}
use cryptobot_algo.Base.Maps.{Map, insert}

-- `OrderManagerInterface`, for requests `R` and events `E`.
pub record OrderManagerOps (M R E : Type 0) : Type 0 where
  pub place_order_manual_id : R → ℕ → M → M
  pub place_order_auto_id : R → M → M
  pub cancel_order : R → M → M
  pub amend_order : R → M → M
  pub on_response : E → M → M

abbrev pub Oms : Type 0 → Type 0
Oms M = Map M

module _ {M : Type 0} where
  abbrev pub register : ℕ → M → Oms M → Oms M
  register id om oms = insert id om oms

  -- A call of the manager of an exchange.
  unfoldable pub at : ℕ → (M → M) → Oms M → Option (Oms M)
  at id call oms = elim (oms id) [ none ↦ none | some om ↦ some (insert id (call om) oms) ]

  -- Where the exchange was registered its manager takes the call, and no other manager changes; for
  -- an exchange that was not the call fails.
  pub at_registered :
      (id : ℕ) (call : M → M) (oms : Oms M)
      → ((at id call oms ≡ none) × (oms id ≡ none))
        ⊎ ((om : M) × (oms' : Oms M) × (oms id ≡ some om)
            × (at id call oms ≡ some oms')
            × (oms' id ≡ some (call om))
            × ((j : ℕ) → id ≢ j → oms' j ≡ oms j))
  unfolding at
  at_registered id call oms = elim (Option-cases (oms id)) [
    | inl e ↦ inl (ground (arith, e), e)
    | inr (om, e) ↦
        inr
          (om, insert id (call om) oms, e, ground (arith, e), ground arith, λ j other. ground arith)
  ]

module _ {M R E : Type 0} (ops : OrderManagerOps M R E) where
  unfoldable pub multi_place_order_manual_id : ℕ → R → ℕ → Oms M → Option (Oms M)
  unfolding at
  multi_place_order_manual_id id order uid = at id (ops.place_order_manual_id order uid)

  unfoldable pub multi_place_order_auto_id : ℕ → R → Oms M → Option (Oms M)
  unfolding at
  multi_place_order_auto_id id order = at id (ops.place_order_auto_id order)

  unfoldable pub multi_cancel_order : ℕ → R → Oms M → Option (Oms M)
  unfolding at
  multi_cancel_order id order = at id (ops.cancel_order order)

  unfoldable pub multi_amend_order : ℕ → R → Oms M → Option (Oms M)
  unfolding at
  multi_amend_order id order = at id (ops.amend_order order)

  unfoldable pub multi_on_response : ℕ → E → Oms M → Option (Oms M)
  unfolding at
  multi_on_response id event = at id (ops.on_response event)
