-- ===== src/BuyApi/Created.antt =====
-- Which order a quote opens, and how many (services/bridge/src/api/buy.ts).
use faircoin_bridge.BuyApi.{
  BuyQuoteError, PaymentQuote, QuoteBody, QuoteResponse, QuoteResult, address_for, after_quote,
  allocated_or_none, build_payment_quote, buy_quote_error, create_order, created, insert_if_new,
  insert_order, is_card_supported, max_awaiting_per_ip, new_order, other_error, outstanding,
  post_quote, quote_refused, quote_usdc_payment, quoted, respond_created, too_many_outstanding,
  unless_too_many, validated, with_address, with_buffer_and_fee, with_destination, within_limits,
}
use faircoin_bridge.Effects.{World, ask, catch, pure, ◌>>=◌}
use faircoin_bridge.Effects.Hoare.{
  Ensures, Post, act-Ensures, bind-Ensures, catch-Ensures, if-Ensures, known-Ensures, look-Ensures,
  pre-Ensures, pure-Ensures, query-Ensures, throw-Ensures, weaken-Ensures,
}
use faircoin_bridge.Hd.{DerivedKey}
use faircoin_bridge.Hd.Fresh.{Moved, allocate-IsKey}
use faircoin_bridge.Models.BuyOrder.{BuyOrder, BuyOrderStatus, PaymentCurrency}
use faircoin_bridge.Prelude.{
  Bool, Option, [], ap, arith, false, inl, inr, leb, ltb, none, refl, some, some-injective, suc,
  sym, true, ℕ, ◌*◌, ◌++◌, ◌+◌, ◌<◌, ◌∙◌, ◌∷◌, ◌≡◌, ◌≤◌, ◌⊎◌,
}
use faircoin_bridge.Prelude.Collection.{Collection, next_id}
use faircoin_bridge.Quotes.{fair_amount_to_sats, fair_sats_to_wfair_wei, is_fair_amount}
use faircoin_bridge.Quotes.Fees.{add_fee-apply_buffer_le, price_covers}
use faircoin_bridge.Store.{Action, Config, Env, Store}
use faircoin_bridge.Uniswap.Pool.{IsQuote, PoolIsChecked, exact_out-IsQuote}

below_cap :
    (ip i : ℕ) (c c' : Collection BuyOrder)
    → ip ≡ i
    → c ≡ c'
    → leb 20 (outstanding ip c) ≡ false
    → outstanding i c' < 20
below_cap ip i c c' e f h = rw (← e, ← f) (ground arith)

module _ (config : Config) (env : Env) (body : QuoteBody) (client_ip : Option ℕ)
    (before : Collection BuyOrder) (next : ℕ) where
  abbrev pub Within : Type 0
  Within = (i : ℕ) → client_ip ≡ some i → outstanding i before < 20

  abbrev pub sats : ℕ
  sats = fair_amount_to_sats body.fair_amount

  -- The price covers what the quoter asks, and adds no more than the buffer and the fee.
  abbrev pub IsPriced : ℕ → Type 0
  IsPriced amount =
      (raw : ℕ) × IsQuote config env (fair_sats_to_wfair_wei sats) raw
      × (raw ≤ amount)
      × (amount * 10_000 * 10_000
          ≤ raw * (10_000 + config.buy_slippage_buffer_bps) * (10_000 + config.buy_bridge_fee_bps))

  -- What holds of an order that is opened.
  pub record Opens (o : BuyOrder) : Type 0 where
    pub awaits : o.status ≡ BuyOrderStatus.awaiting_payment
    pub amount : o.fair_amount_sats ≡ sats
    pub at_least : config.buy_min_sats ≤ sats
    pub at_most : sats ≤ config.buy_max_sats
    pub destination : o.fair_destination_address ≡ body.fair_destination_address
    pub valid : (n : ℕ) × (env.is_valid_address n body.fair_destination_address ≡ true)
    pub in_usdc : o.payment_currency ≡ PaymentCurrency.usdc_base
    pub client : o.client_ip ≡ client_ip
    pub within_cap : Within
    pub priced : IsPriced o.payment_amount
    pub index : o.payment_hd_index ≡ some next
    pub address : o.payment_address ≡ some (env.payment_key_address next)

  -- The orders are as they were, with this counter of payment addresses.
  abbrev pub Base : ℕ → Store → Type 0
  Base j s = (s.orders ≡ before) × (s.base_buy_payment_next_index ≡ j) × PoolIsChecked config s

  abbrev pub Unopened : Store → Type 0
  Unopened s = Base next s ⊎ Base (suc next) s

  abbrev pub Opened : ℕ → BuyOrder → Store → Type 0
  Opened id o s =
      (id ≡ next_id before)
      × Opens o
      × (s.orders ≡ before ++ (id, o) ∷ [])
      × (s.base_buy_payment_next_index ≡ suc next)
      × PoolIsChecked config s

  -- What a response says about the orders.
  abbrev pub Answered : QuoteResponse → Store → Type 0
  Answered (created id o quote) s = Opened id o s
  Answered _ s = Unopened s

  -- However the handler ends, it has opened no order or one.
  abbrev pub Ended : Store → Type 0
  Ended s = Unopened s ⊎ ((o : BuyOrder) × Opened (next_id before) o s)

  abbrev Asks : ℕ → Action QuoteResponse → Type 0
  Asks j m = Ensures (Base j) m Answered Ended

  Inserted : BuyOrder → Option ℕ → Store → Type 0
  Inserted o none s = Unopened s
  Inserted o (some id) s = Opened id o s

  insert_if_new-Inserted :
      (found : Option (ℕ × BuyOrder)) (o : BuyOrder) (s : Store)
      → Opens o
      → Base (suc next) s
      → let (id, s') = insert_if_new found o s in Inserted o id s' × Ended s × Ended s'
  unfolding insert_if_new Inserted
  insert_if_new-Inserted (some _) o s h p = (inr p, inl (inr p), inl (inr p))
  insert_if_new-Inserted none o s h p = (
    (ap next_id p.0, h, ap (λ c. c ++ (next_id s.orders, o) ∷ []) p.0, p.1, p.2),
    inl (inr p),
    inr (o, (refl, h, ap (λ c. c ++ (next_id c, o) ∷ []) p.0, p.1, p.2)),
  )

  create_order-Asks :
      (o : BuyOrder) (quote : PaymentQuote)
      → Opens o
      → Asks (suc next) (create_order config env o quote)
  unfolding create_order insert_order
  create_order-Asks o quote h =
      bind-Ensures (Inserted o) (act-Ensures _ _ (λ n s p. insert_if_new-Inserted _ o s h p))
        responded
    where
      responded :
          (id : Option ℕ)
          → Ensures (Inserted o id) (respond_created config env o quote id) Answered Ended
      responded none = unfold respond_created Inserted in throw-Ensures _ (λ s p. inl p)
      responded (some id) = unfold respond_created Inserted in pure-Ensures _ (λ s p. p)

  -- What the handler knows when it has a quote.
  record Admitted (amount : ℕ) : Type 0 where
    at_least : config.buy_min_sats ≤ sats
    at_most : sats ≤ config.buy_max_sats
    valid : (n : ℕ) × (env.is_valid_address n body.fair_destination_address ≡ true)
    in_usdc : body.payment_currency ≡ PaymentCurrency.usdc_base
    within_cap : Within
    priced : IsPriced amount

  -- A key was allocated, or none, and then the counter may have moved.
  Allocated : Option DerivedKey → Store → Type 0
  Allocated none s = Unopened s
  Allocated (some key) s =
      Base (suc next) s × (key.index ≡ next) × (key.address ≡ env.payment_key_address next)

  with_address-Asks :
      (quote : PaymentQuote) (key : Option DerivedKey)
      → Admitted quote.payment_amount
      → Ensures
          (Allocated key)
          (with_address config env body client_ip sats quote key)
          Answered
          Ended
  unfolding with_address Allocated
  with_address-Asks quote none h = pure-Ensures _ (λ s p. p)
  with_address-Asks quote (some key) h =
      known-Ensures (λ s p. (p.1, p.2))
        (λ k.
          bind-Ensures (λ _. Base (suc next)) (look-Ensures _ (λ n s p. p.0))
            (λ expires_at. create_order-Asks _ quote (opens k expires_at)))
    where
      opens :
          (key.index ≡ next) × (key.address ≡ env.payment_key_address next)
          → (n : ℕ) → Opens (new_order config env body client_ip sats quote key n)
      opens k n =
          unfold new_order in
          record {
            awaits = refl;
            amount = refl;
            at_least = h.at_least;
            at_most = h.at_most;
            destination = refl;
            valid = h.valid;
            in_usdc = h.in_usdc;
            client = refl;
            within_cap = h.within_cap;
            priced = h.priced;
            index = ap some k.0;
            address = ap some k.1;
          }

  allocated_or_none-Allocated :
      Ensures (Base next) (allocated_or_none config env) Allocated Unopened
  unfolding allocated_or_none Allocated
  allocated_or_none-Allocated =
      catch-Ensures
        (bind-Ensures
          (λ key s.
            Base (suc next) s × (key.index ≡ next) × (key.address ≡ env.payment_key_address next))
          (weaken-Ensures (λ s p. ((p.0, p.2), p.1))
            (λ key s p. ((p.0.0.0, p.0.1, p.0.0.1), p.1.0, p.1.1)) back
            (allocate-IsKey config env (λ s. (s.orders ≡ before) × PoolIsChecked config s)
              (λ s n p. p) next))
          (λ key. pure-Ensures _ (λ s p. p)))
        (λ _. pure-Ensures _ (λ s p. p))
    where
      back :
          (s : Store)
          → Moved config env (λ s. (s.orders ≡ before) × PoolIsChecked config s) (λ s n p. p) next s
          → Unopened s
      back s (inl p) = inl (p.0.0, p.1, p.0.1)
      back s (inr p) = inr (p.0.0, p.1, p.0.1)

  refused-Asks : (r : BuyQuoteError) → Asks next (pure (quote_refused r))
  refused-Asks r = pure-Ensures _ (λ s p. inl p)

  address_for-Asks :
      (currency : PaymentCurrency) (quote : PaymentQuote)
      → Admitted quote.payment_amount
      → Asks next (address_for config env currency body client_ip sats quote)
  unfolding address_for
  address_for-Asks currency quote h = go currency
    where
      allocates :
          Asks next
            (allocated_or_none config env >>= with_address config env body client_ip sats quote)
      allocates =
          bind-Ensures Allocated
            (weaken-Ensures (λ s p. p) (λ _ s p. p) (λ s p. inl p) allocated_or_none-Allocated)
            (λ key. with_address-Asks quote key h)

      go : (c : PaymentCurrency) → Asks next (address_for config env c body client_ip sats quote)
      go PaymentCurrency.card =
          if-Ensures (is_card_supported config env) (λ _. refused-Asks _) (λ _. refused-Asks _)
      go PaymentCurrency.usdc_base = allocates
      go PaymentCurrency.eth_base = allocates
      go PaymentCurrency.eth_mainnet = allocates
      go PaymentCurrency.btc = allocates

  -- A quote is given for USDC only, and is priced.
  abbrev IsQuoted : PaymentCurrency → QuoteResult → Type 0
  IsQuoted c (quoted quote) = (c ≡ PaymentCurrency.usdc_base) × IsPriced quote.payment_amount
  IsQuoted c _ = Unit

  build_payment_quote-IsQuoted :
      (c : PaymentCurrency)
      → Ensures
          (Base next)
          (build_payment_quote config env c (fair_sats_to_wfair_wei sats))
          (λ r s. Base next s × IsQuoted c r)
          (Base next)
  unfolding build_payment_quote quote_usdc_payment with_buffer_and_fee
  build_payment_quote-IsQuoted PaymentCurrency.usdc_base =
      bind-Ensures (λ usdc s. Base next s × IsQuote config env (fair_sats_to_wfair_wei sats) usdc)
        (weaken-Ensures (λ s p. ((p.0, p.1), p.2)) (λ usdc s p. ((p.0.0.0, p.0.0.1, p.0.1), p.1))
          (λ s p. (p.0.0, p.0.1, p.1))
          (exact_out-IsQuote config env
            (λ s. (s.orders ≡ before) × (s.base_buy_payment_next_index ≡ next)) (λ s pool p. p)
            (fair_sats_to_wfair_wei sats)))
        (λ usdc. pure-Ensures _ (λ s p. (
          p.0,
          (
            refl,
            (
              usdc,
              p.1,
              price_covers usdc config.buy_slippage_buffer_bps config.buy_bridge_fee_bps,
              add_fee-apply_buffer_le usdc config.buy_slippage_buffer_bps config.buy_bridge_fee_bps,
            ),
          ),
        )))
  build_payment_quote-IsQuoted PaymentCurrency.eth_base = pure-Ensures _ (λ s p. (p, tt))
  build_payment_quote-IsQuoted PaymentCurrency.eth_mainnet = pure-Ensures _ (λ s p. (p, tt))
  build_payment_quote-IsQuoted PaymentCurrency.btc = pure-Ensures _ (λ s p. (p, tt))
  build_payment_quote-IsQuoted PaymentCurrency.card = pure-Ensures _ (λ s p. (p, tt))

  abbrev IsGood : Bool → Type 0
  IsGood valid =
      valid ≡ true → (n : ℕ) × (env.is_valid_address n body.fair_destination_address ≡ true)

  module _ (low : config.buy_min_sats ≤ sats) (high : sats ≤ config.buy_max_sats)
      (cap : Within) where
    after_quote-Asks :
        (r : QuoteResult)
        → IsGood true
        → IsQuoted body.payment_currency r
        → Asks next (after_quote config env body client_ip sats r)
    unfolding after_quote
    after_quote-Asks (quoted quote) good q = address_for-Asks body.payment_currency quote (record {
      at_least = low;
      at_most = high;
      valid = good refl;
      in_usdc = q.0;
      within_cap = cap;
      priced = q.1;
    })
    after_quote-Asks (buy_quote_error e) good q = refused-Asks e
    after_quote-Asks other_error good q = pure-Ensures _ (λ s p. inl p)

    quoting-IsQuoted :
        Ensures
          (Base next)
          (catch
            (build_payment_quote config env body.payment_currency (fair_sats_to_wfair_wei sats))
            (λ _. pure other_error))
          (λ r s. Base next s × IsQuoted body.payment_currency r)
          (Base next)
    quoting-IsQuoted =
        catch-Ensures (build_payment_quote-IsQuoted body.payment_currency)
          (λ _. pure-Ensures _ (λ s p. (p, tt)))

    with_destination-Asks :
        (valid : Bool)
        → IsGood valid
        → Asks next (with_destination config env body client_ip sats valid)
    unfolding with_destination
    with_destination-Asks false good = pure-Ensures _ (λ s p. inl p)
    with_destination-Asks true good =
        bind-Ensures (λ r s. Base next s × IsQuoted body.payment_currency r)
          (weaken-Ensures (λ s p. p) (λ _ s p. p) (λ s p. inl (inl p)) quoting-IsQuoted)
          (λ r.
            known-Ensures (λ s p. p.1) (λ q. pre-Ensures (λ s p. p.0) (after_quote-Asks r good q)))

    validated-IsGood :
        Ensures
          (Base next)
          (validated config env body.fair_destination_address)
          (λ valid s. Base next s × IsGood valid)
          (Base next)
    unfolding validated ask
    validated-IsGood =
        catch-Ensures (act-Ensures _ _ (λ n s p. ((p, λ t. (n, t)), p, p)))
          (λ _. pure-Ensures _ (λ s p. (p, λ t. absurd (cc))))

  within_limits-Asks : Within → Asks next (within_limits config env body client_ip sats)
  unfolding within_limits
  within_limits-Asks cap =
      if-Ensures (ltb sats config.buy_min_sats) (λ _. pure-Ensures _ (λ s p. inl p))
        (λ low.
          if-Ensures (ltb config.buy_max_sats sats) (λ _. pure-Ensures _ (λ s p. inl p))
            (λ high.
              let at_least : config.buy_min_sats ≤ sats = ground arith in
              let at_most : sats ≤ config.buy_max_sats = ground arith in
              bind-Ensures (λ valid s. Base next s × IsGood valid)
                (weaken-Ensures (λ s p. p) (λ _ s p. p) (λ s p. inl (inl p))
                  (validated-IsGood at_least at_most cap))
                (λ valid.
                  known-Ensures (λ s p. p.1)
                    (λ good.
                      pre-Ensures (λ s p. p.0)
                        (with_destination-Asks at_least at_most cap valid good)))))

  -- The count was below the cap.
  abbrev Counted : Bool → Type 0
  Counted too_many = too_many ≡ false → Within

  too_many_outstanding-Counted :
      (ip : Option ℕ)
      → client_ip ≡ ip
      → Ensures
          (Base next)
          (too_many_outstanding config env ip)
          (λ too_many s. Base next s × Counted too_many)
          (Base next)
  unfolding too_many_outstanding max_awaiting_per_ip
  too_many_outstanding-Counted none e = pure-Ensures _ (λ s p. (p, λ f i h. absurd (cc)))
  too_many_outstanding-Counted (some ip) e = query-Ensures _ _ (λ s p.
      ((p, λ f i h. below_cap ip i s.orders before (some-injective _ _ (sym e ∙ h)) p.0 f), p))

  post_quote-Asks : Asks next (post_quote config env body client_ip)
  unfolding post_quote unless_too_many
  post_quote-Asks =
      if-Ensures (is_fair_amount body.fair_amount)
        (λ _.
          bind-Ensures (λ too_many s. Base next s × Counted too_many)
            (weaken-Ensures (λ s p. p) (λ _ s p. p) (λ s p. inl (inl p))
              (too_many_outstanding-Counted client_ip refl))
            (λ too_many.
              known-Ensures (λ s p. p.1)
                (λ counted.
                  pre-Ensures (λ s p. p.0)
                    (if-Ensures too_many (λ _. pure-Ensures _ (λ s p. inl p))
                      (λ f. within_limits-Asks (counted f))))))
        (λ _. pure-Ensures _ (λ s p. inl p))

module _ (config : Config) (env : Env) where
  -- Where the remembered pool is the configured one: `POST /quote` leaves the orders as they were, or
  -- opens one order, and then it has used the next payment index. The order awaits its payment; its
  -- amount is what the body asks for and lies within the limits; its destination was valid at a
  -- moment; it is in USDC, has the address of that index, and its client had fewer than 20 such
  -- orders; and its price is at least what the quoter asked at a moment for that much WFAIR of the
  -- configured pool, and at most that with the buffer and the fee. The response is 201, with that
  -- order, only if the order was opened, and any other response means that none was. The remembered
  -- pool is still the configured one.
  pub post_quote_opens :
      (body : QuoteBody) (client_ip : Option ℕ) (w : World Store)
      → PoolIsChecked config w.store
      → let next = w.store.base_buy_payment_next_index in
        Post
          (Answered config env body client_ip w.store.orders next)
          (Ended config env body client_ip w.store.orders next)
          (post_quote config env body client_ip w)
  post_quote_opens body client_ip w h =
      (post_quote-Asks config env body client_ip w.store.orders
          w.store.base_buy_payment_next_index).runs
        w (refl, refl, h)
