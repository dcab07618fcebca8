-- ===== src/BuyApi/Requests.antt =====
-- What every sequence of quote requests keeps (services/bridge/src/api/buy.ts).
use faircoin_bridge.BuyApi.{
  QuoteBody, QuoteResponse, above_maximum, address_allocation_failed, below_minimum, created,
  invalid_fair_destination, invalid_request, is_outstanding, outstanding, pool_quote_failed,
  post_quote, quote_refused, too_many_outstanding_quotes,
}
use faircoin_bridge.BuyApi.Created.{Answered, Ended, Opened, Unopened, post_quote_opens}
use faircoin_bridge.Decimal.Laws.{All-append}
use faircoin_bridge.Effects.{Outcome, World, died, done, threw}
use faircoin_bridge.Effects.Hoare.{Post}
use faircoin_bridge.Models.BuyOrder.{BuyOrder}
use faircoin_bridge.Prelude.{
  All, List, Option, [], ap, arith, if◌then◌else◌, inl, inr, none, refl, some, some-injective, sym,
  ℕ, ◌++◌, ◌+◌, ◌<◌, ◌∙◌, ◌∷◌, ◌≡◌, ◌≢◌, ◌≤◌,
}
use faircoin_bridge.Prelude.Collection.{Collection, find_all, next_id}
use faircoin_bridge.Store.{Config, Env, Store}
use faircoin_bridge.Uniswap.Pool.{PoolIsChecked}

-- Two orders do not share a payment index.
abbrev Apart : BuyOrder → BuyOrder → Type 0
Apart o o' = (k : ℕ) → o.payment_hd_index ≡ some k → o'.payment_hd_index ≢ some k

abbrev pub Distinct : Collection BuyOrder → Type 0
Distinct [] = Unit
Distinct ((id, o) ∷ c) = All (λ x. Apart o x.1) c × Distinct c

abbrev IndexBelow : ℕ → BuyOrder → Type 0
IndexBelow n o = (k : ℕ) → o.payment_hd_index ≡ some k → k < n

All-map : {A : Type 0} (P Q : A → Type 0) (c : List A) → ((a : A) → P a → Q a) → All P c → All Q c
All-map P Q [] f h = tt
All-map P Q (a ∷ c) f h = (f a h.0, All-map P Q c f h.1)

Distinct-last :
    (c : Collection BuyOrder) (id : ℕ) (o : BuyOrder)
    → Distinct c
    → All (λ x. Apart x.1 o) c
    → Distinct (c ++ (id, o) ∷ [])
Distinct-last [] id o h k = (tt, tt)
Distinct-last ((j, x) ∷ c) id o h k =
    (All-append (λ y. Apart x y.1) c ((id, o) ∷ []) h.0 (k.0, tt), Distinct-last c id o h.1 k.1)

outstanding-last :
    (ip : ℕ) (c : Collection BuyOrder) (id : ℕ) (o : BuyOrder)
    → outstanding ip (c ++ (id, o) ∷ []) ≡ outstanding ip c + (if is_outstanding ip o then 1 else 0)
unfolding outstanding find_all
outstanding-last ip [] id o = ground arith
outstanding-last ip ((j, x) ∷ c) id o = ground (arith, outstanding-last ip c id o)

-- No client has more than 20 orders that await their payment, and no two orders have the same
-- payment index, which the counter has passed.
pub record IsOrderly (s : Store) : Type 0 where
  pub capped : (ip : ℕ) → outstanding ip s.orders ≤ 20
  pub below : All (λ x. IndexBelow s.base_buy_payment_next_index x.1) s.orders
  pub distinct : Distinct s.orders

outstanding-one :
    (i : ℕ) (ip : Option ℕ) (c : Collection BuyOrder) (o : BuyOrder)
    → o.client_ip ≡ ip
    → ((j : ℕ) → ip ≡ some j → outstanding j c < 20)
    → outstanding i c ≤ 20
    → outstanding i c + (if is_outstanding i o then 1 else 0) ≤ 20
unfolding is_outstanding
outstanding-one i none c o e cap h = ground arith
outstanding-one i (some j) c o e cap h = ground (arith, cap j refl)

module _ (config : Config) (env : Env) where
  -- The requests of a process, one after the other; each is a body and an address.
  unfoldable pub serve : List (QuoteBody × Option ℕ) → World Store → World Store
  serve [] w = w
  serve ((body, client_ip) ∷ requests) w = serve requests (post_quote config env body client_ip w).1

  OrderlyPool : Store → Type 0
  OrderlyPool s = IsOrderly s × PoolIsChecked config s

  module _ (body : QuoteBody) (client_ip : Option ℕ) (s : Store) (h : IsOrderly s) where
    abbrev EndedHere : Store → Type 0
    EndedHere = Ended config env body client_ip s.orders s.base_buy_payment_next_index

    no_opening-IsOrderly :
        (t : Store)
        → t.orders ≡ s.orders
        → s.base_buy_payment_next_index ≤ t.base_buy_payment_next_index
        → IsOrderly t
    no_opening-IsOrderly t same later = record {
      capped = λ ip. rw same (h.capped ip);
      below = rw same (All-map _ _ s.orders (λ x b k e. omega (arith, b k e, later)) h.below);
      distinct = rw same h.distinct;
    }

    after_opening-IsOrderly :
        (t : Store) (o : BuyOrder)
        → Opened config env body client_ip s.orders s.base_buy_payment_next_index
            (next_id s.orders)
            o
            t
        → IsOrderly t
    after_opening-IsOrderly t o (same_id, opens, list, later, pool) = record {
      capped = λ ip. rw list (
          rw (outstanding-last ip s.orders (next_id s.orders) o)
            (outstanding-one ip client_ip s.orders o opens.client opens.within_cap (h.capped ip)));
      below = rw list (
          All-append _ s.orders ((next_id s.orders, o) ∷ [])
            (All-map _ _ s.orders (λ x b k e. omega (arith, b k e, later)) h.below)
            (λ k e. omega (arith, some-injective _ _ (sym opens.index ∙ e), later), tt));
      distinct = rw list (
          Distinct-last s.orders (next_id s.orders) o h.distinct (
            All-map _ _ s.orders
              (λ x b k e e'. omega (arith, b k e, some-injective _ _ (sym opens.index ∙ e')))
              h.below));
    }

    no_opening-OrderlyPool :
        (t : Store)
        → Unopened config env body client_ip s.orders s.base_buy_payment_next_index t
        → OrderlyPool t
    unfolding OrderlyPool
    no_opening-OrderlyPool t (inl p) = (no_opening-IsOrderly t p.0 (omega (arith, p.1)), p.2)
    no_opening-OrderlyPool t (inr p) = (no_opening-IsOrderly t p.0 (omega (arith, p.1)), p.2)

    ended-OrderlyPool : (t : Store) → EndedHere t → OrderlyPool t
    unfolding OrderlyPool
    ended-OrderlyPool t (inl p) = no_opening-OrderlyPool t p
    ended-OrderlyPool t (inr (o, p)) = (after_opening-IsOrderly t o p, p.4)

    response-OrderlyPool :
        (r : QuoteResponse) (t : Store)
        → Answered config env body client_ip s.orders s.base_buy_payment_next_index r t
        → OrderlyPool t
    unfolding OrderlyPool
    response-OrderlyPool (created id o quote) t p = (
      after_opening-IsOrderly t o
          (refl, p.1, p.2 ∙ ap (λ i. s.orders ++ (i, o) ∷ []) p.0, p.3, p.4),
      p.4,
    )
    response-OrderlyPool invalid_request t p = no_opening-OrderlyPool t p
    response-OrderlyPool too_many_outstanding_quotes t p = no_opening-OrderlyPool t p
    response-OrderlyPool below_minimum t p = no_opening-OrderlyPool t p
    response-OrderlyPool above_maximum t p = no_opening-OrderlyPool t p
    response-OrderlyPool invalid_fair_destination t p = no_opening-OrderlyPool t p
    response-OrderlyPool (quote_refused _) t p = no_opening-OrderlyPool t p
    response-OrderlyPool pool_quote_failed t p = no_opening-OrderlyPool t p
    response-OrderlyPool address_allocation_failed t p = no_opening-OrderlyPool t p

  post_quote-OrderlyPool :
      (body : QuoteBody) (client_ip : Option ℕ) (w : World Store)
      → OrderlyPool w.store
      → OrderlyPool (post_quote config env body client_ip w).1.store
  unfolding OrderlyPool
  post_quote-OrderlyPool body client_ip w h =
      go (post_quote config env body client_ip w) (post_quote_opens config env body client_ip w h.1)
    where
      go :
          (r : Outcome QuoteResponse × World Store)
          → Post
              (Answered config env body client_ip w.store.orders
                w.store.base_buy_payment_next_index)
              (Ended config env body client_ip w.store.orders w.store.base_buy_payment_next_index)
              r
          → OrderlyPool r.1.store
      go (done a, w') p = response-OrderlyPool body client_ip w.store h.0 a w'.store p
      go (threw e, w') p = ended-OrderlyPool body client_ip w.store h.0 w'.store p
      go (died, w') p = ended-OrderlyPool body client_ip w.store h.0 w'.store p

  serve-OrderlyPool :
      (requests : List (QuoteBody × Option ℕ)) (w : World Store)
      → OrderlyPool w.store
      → OrderlyPool (serve requests w).store
  unfolding serve
  serve-OrderlyPool [] w h = h
  serve-OrderlyPool ((body, client_ip) ∷ requests) w h =
      serve-OrderlyPool requests _ (post_quote-OrderlyPool body client_ip w h)

  -- From a state with the configured pool, if it remembers one, in which no client has more than 20
  -- orders that await their payment, and no two orders have the same payment index, which the counter
  -- has passed: the state after any quote requests, one after the other and however each ends, is such
  -- a state again.
  pub serve-IsOrderly :
      (requests : List (QuoteBody × Option ℕ)) (w : World Store)
      → IsOrderly w.store
      → PoolIsChecked config w.store
      → IsOrderly (serve requests w).store × PoolIsChecked config (serve requests w).store
  unfolding OrderlyPool
  serve-IsOrderly requests w h pool = serve-OrderlyPool requests w (h, pool)
