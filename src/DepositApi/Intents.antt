-- ===== src/DepositApi/Intents.antt =====
-- Which deposit an intent opens (services/bridge/src/api/deposit.ts).
use mathlib.Core.List.{Memᴰ}
use faircoin_bridge.DepositApi.{
  IntentResponse, create_deposit, insert_deposit, insert_if_new, intent_created, is_unpaid,
  new_deposit, post_intent, respond_created, too_many_outstanding, too_many_outstanding_awaiting,
  unless_too_many,
}
use faircoin_bridge.Effects.{World}
use faircoin_bridge.Effects.Hoare.{
  Ensures, Post, act-Ensures, bind-Ensures, if-Ensures, known-Ensures, pre-Ensures, pure-Ensures,
  query-Ensures, throw-Ensures, weaken-Ensures,
}
use faircoin_bridge.Hd.{DerivedKey}
use faircoin_bridge.Hd.Deposits.{allocate_deposit-IsKey}
use faircoin_bridge.Models.Deposit.{Deposit, DepositStatus}
use faircoin_bridge.Prelude.{
  Option, [], ap, inl, inr, none, refl, some, suc, sym, ℕ, ◌++◌, ◌∙◌, ◌∷◌, ◌≡◌, ◌⊎◌,
}
use faircoin_bridge.Prelude.Collection.{Collection, find_one, next_id}
use faircoin_bridge.Store.{Config, Env, Store}

module _ (config : Config) (env : Env) (base_address : ℕ) (client_ip : Option ℕ)
    (before : Collection Deposit) (next : ℕ) where
  pub record Opens (d : Deposit) : Type 0 where
    pub awaits : d.status ≡ DepositStatus.awaiting
    pub receiver : d.base_address ≡ base_address
    pub client : d.client_ip ≡ client_ip
    pub no_amount : (d.amount_sats ≡ 0) × (d.amount_wei ≡ 0)
    pub index : d.hd_index ≡ some next
    pub address : d.fair_address ≡ env.deposit_key_address next
    -- no other deposit awaits its payment
    pub alone : find_one is_unpaid before ≡ none

  abbrev Base : ℕ → Store → Type 0
  Base j s = (s.deposits ≡ before) × (s.fair_deposit_next_index ≡ j)

  abbrev pub Unopened : Store → Type 0
  Unopened s = Base next s ⊎ Base (suc next) s

  -- The address of the new deposit is among those that the service knows.
  abbrev IsKnown : Store → Type 0
  IsKnown s = Memᴰ (env.deposit_key_address next) s.address_cache

  abbrev pub Opened : ℕ → Deposit → Store → Type 0
  Opened id d s =
      (id ≡ next_id before)
      × Opens d
      × (s.deposits ≡ before ++ (id, d) ∷ [])
      × (s.fair_deposit_next_index ≡ suc next)
      × IsKnown s

  abbrev pub Answered : IntentResponse → Store → Type 0
  Answered too_many_outstanding_awaiting s = Unopened s
  Answered (intent_created answer) s =
      (d : Deposit) × Opened answer.id d s × (answer.fair_address ≡ d.fair_address)

  abbrev pub Ended : Store → Type 0
  Ended s = Unopened s ⊎ ((d : Deposit) × Opened (next_id before) d s)

  Inserted : Deposit → Option ℕ → Store → Type 0
  Inserted d none s = Unopened s
  Inserted d (some id) s = Opened id d s

  insert_if_new-Inserted :
      (found : Option (ℕ × Deposit)) (d : Deposit) (s : Store)
      → (found ≡ none → Opens d)
      → Base (suc next) s
      → IsKnown s
      → let (id, s') = insert_if_new found d s in Inserted d id s' × Ended s × Ended s'
  unfolding insert_if_new Inserted
  insert_if_new-Inserted (some _) d s h p k = (inr p, inl (inr p), inl (inr p))
  insert_if_new-Inserted none d s h p k = (
    (ap next_id p.0, h refl, ap (λ c. c ++ (next_id s.deposits, d) ∷ []) p.0, p.1, k),
    inl (inr p),
    inr (d, (refl, h refl, ap (λ c. c ++ (next_id c, d) ∷ []) p.0, p.1, k)),
  )

  create_deposit-Answered :
      (key : DerivedKey)
      → (key.index ≡ next) × (key.address ≡ env.deposit_key_address next)
      → Ensures
          (λ s. Base (suc next) s × IsKnown s)
          (create_deposit config env base_address client_ip key)
          Answered
          Ended
  unfolding create_deposit insert_deposit
  create_deposit-Answered key k =
      bind-Ensures (λ id s. (n : ℕ) × Inserted (new_deposit base_address client_ip key n) id s)
        (act-Ensures _ _ (λ n s p.
          let (there, before_it, after_it) =
            insert_if_new-Inserted (find_one is_unpaid s.deposits)
              (new_deposit base_address client_ip key (env.now n)) s (λ e. opens _ s p.0.0 e) p.0
              p.1 in
          ((env.now n, there), before_it, after_it)))
        responded
    where
      opens :
          (n : ℕ) (s : Store)
          → s.deposits ≡ before
          → find_one is_unpaid s.deposits ≡ none
          → Opens (new_deposit base_address client_ip key n)
      opens n s same e =
          unfold new_deposit in
          record {
            awaits = refl;
            receiver = refl;
            client = refl;
            no_amount = (refl, refl);
            index = ap some k.0;
            address = k.1;
            alone = ap (find_one is_unpaid) (sym same) ∙ e;
          }

      responded :
          (id : Option ℕ)
          → Ensures
              (λ s. (n : ℕ) × Inserted (new_deposit base_address client_ip key n) id s)
              (respond_created config env base_address key id)
              Answered
              Ended
      responded none = unfold respond_created Inserted in throw-Ensures _ (λ s p. inl p.1)
      responded (some id) =
          unfold respond_created Inserted in
          pure-Ensures _
            (λ s p. (new_deposit base_address client_ip key p.0, p.1, unfold new_deposit in refl))

  post_intent-Answered :
      Ensures (Base next) (post_intent config env base_address client_ip) Answered Ended
  unfolding post_intent unless_too_many
  post_intent-Answered =
      bind-Ensures (λ _. Base next) (asked client_ip)
        (λ too_many.
          if-Ensures too_many (λ _. pure-Ensures _ (λ s p. inl p))
            (λ _.
              bind-Ensures
                (λ key s.
                  (Base (suc next) s × IsKnown s)
                  × ((key.index ≡ next) × (key.address ≡ env.deposit_key_address next)))
                (weaken-Ensures (λ s p. p) (λ key s p. ((p.0, p.1), p.2)) (λ s p. inl p)
                  (allocate_deposit-IsKey config env (λ s. s.deposits ≡ before) (λ s n p. p)
                    (λ s l p. p) next))
                (λ key.
                  known-Ensures (λ s p. p.1)
                    (λ k. pre-Ensures (λ s p. p.0) (create_deposit-Answered key k)))))
    where
      asked :
          (ip : Option ℕ)
          → Ensures (Base next) (too_many_outstanding config env ip) (λ _. Base next) Ended
      asked none = unfold too_many_outstanding in pure-Ensures _ (λ s p. p)
      asked (some ip) = unfold too_many_outstanding in query-Ensures _ _ (λ s p. (p, inl (inl p)))

module _ (config : Config) (env : Env) where
  -- However a deposit intent ends, it has opened no deposit or one, and then it has used the next
  -- deposit index. The deposit awaits its payment, with no amount; its receiver and client are those
  -- of the request, its address is that of the index and is known to the service; and no other deposit
  -- was without a payment, so that while one intent is open, a further one opens none. The response is
  -- 201, with the deposit's address, only if the deposit was opened, and the response 429 means that
  -- none was.
  pub post_intent_opens :
      (base_address : ℕ) (client_ip : Option ℕ) (w : World Store)
      → let next = w.store.fair_deposit_next_index in
        Post
          (Answered config env base_address client_ip w.store.deposits next)
          (Ended config env base_address client_ip w.store.deposits next)
          (post_intent config env base_address client_ip w)
  post_intent_opens base_address client_ip w =
      (post_intent-Answered config env base_address client_ip w.store.deposits
          w.store.fair_deposit_next_index).runs
        w (refl, refl)
