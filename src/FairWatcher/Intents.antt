-- ===== src/FairWatcher/Intents.antt =====
-- What the deposits of the FairCoin watcher keep: keys that differ, and intents without a payment
-- (services/bridge/src/workers/fair-watcher.ts).
-- A transaction and the index of its output.
use faircoin_bridge.Decimal.Laws.{All-append}
use faircoin_bridge.FairWatcher.{is_open, is_vout}
use faircoin_bridge.Models.Deposit.{Deposit}
use faircoin_bridge.Prelude.{
  All, Bool, Bool-cases, [], arith, false, inl, inr, is_some, none, not_both, some, some-injective,
  subst, true, ℕ, ◌++◌, ◌==◌, ◌∷◌, ◌≡◌, ◌≢◌, ◌≤◌,
}
use faircoin_bridge.Prelude.Collection.{Collection, find_by_id, find_one, next_id, update_by_id}

abbrev pub Key : Type 0
Key = ℕ × ℕ

-- There is a deposit for this payment.
abbrev pub Holds : Key → Collection Deposit → Type 0
Holds k c = is_some (find_one (is_vout k.0 k.1) c) ≡ true

abbrev pub KeysDiffer : Collection Deposit → Type 0
KeysDiffer [] = Unit
KeysDiffer ((id, d) ∷ c) = All (λ x. id ≢ x.0) c × KeysDiffer c

-- A deposit that is open has no payment.
abbrev pub IsClean : ℕ × Deposit → Type 0
IsClean x = is_open x.1.status ≡ true → x.1.fair_txid ≡ none

-- The keys differ, and no open deposit has a payment.
pub record IsTidy (c : Collection Deposit) : Type 0 where
  pub keys : KeysDiffer c
  pub clean : All IsClean c

pub find_one-All :
    (P : ℕ × Deposit → Type 0) (q : Deposit → Bool) (c : Collection Deposit) (x : ℕ × Deposit)
    → All P c
    → find_one q c ≡ some x
    → P x × (q x.1 ≡ true)
unfolding find_one
find_one-All P q [] x h e = absurd (cc)
find_one-All P q ((j, d) ∷ c) x h e = elim (Bool-cases (q d)) [
  | inl t ↦ subst (λ y. P y × (q y.1 ≡ true)) (some-injective _ _ (rw t at e)) (h.0, t)
  | inr f ↦ find_one-All P q c x h.1 (rw f at e)
]

module _ (q : Deposit → Bool) (opens : (d : Deposit) → q d ≡ true → is_open d.status ≡ true)
    (f : Deposit → Deposit) where
  -- A write to an open deposit loses no payment.
  pub update-Holds :
      (k : Key) (c : Collection Deposit) (id : ℕ) (d : Deposit)
      → KeysDiffer c
      → All IsClean c
      → find_one q c ≡ some (id, d)
      → Holds k c
      → Holds k (update_by_id id f c)
  unfolding find_one update_by_id
  update-Holds k [] id d keys clean e h = absurd (cc)
  update-Holds k ((j, x) ∷ c) id d keys clean e h = elim (Bool-cases (q x)) [
    | inl t ↦
        let same = some-injective _ _ (rw t at e) in
        let empty = clean.0 (opens x t) in ground (arith, same, empty)
    | inr n ↦
        let later = rw n at e in
        let (other, is) = find_one-All (λ y. j ≢ y.0) q c (id, d) keys.0 later in
        ground (arith, other, update-Holds k c id d keys.1 clean.1 later)
  ]

  -- The payment that is written is then held.
  pub update-Holds_new :
      (k : Key) (c : Collection Deposit) (id : ℕ) (d : Deposit)
      → ((x : Deposit) → is_vout k.0 k.1 (f x) ≡ true)
      → KeysDiffer c
      → find_one q c ≡ some (id, d)
      → Holds k (update_by_id id f c)
  unfolding find_one update_by_id
  update-Holds_new k [] id d pays keys e = absurd (cc)
  update-Holds_new k ((j, x) ∷ c) id d pays keys e = elim (Bool-cases (q x)) [
    | inl t ↦ let same = some-injective _ _ (rw t at e) in ground (arith, same, pays x)
    | inr n ↦
        let later = rw n at e in
        let (other, is) = find_one-All (λ y. j ≢ y.0) q c (id, d) keys.0 later in
        ground (arith, other, update-Holds_new k c id d pays keys.1 later)
  ]

  pub find_by_id-found :
      (c : Collection Deposit) (id : ℕ) (d : Deposit)
      → KeysDiffer c
      → find_one q c ≡ some (id, d)
      → find_by_id id c ≡ some d
  unfolding find_one find_by_id
  find_by_id-found [] id d keys e = absurd (cc)
  find_by_id-found ((j, x) ∷ c) id d keys e = elim (Bool-cases (q x)) [
    | inl t ↦ let same = some-injective _ _ (rw t at e) in ground (arith, same)
    | inr n ↦
        let later = rw n at e in
        let (other, is) = find_one-All (λ y. j ≢ y.0) q c (id, d) keys.0 later in
        ground (arith, other, find_by_id-found c id d keys.1 later)
  ]

-- Writing to a deposit moves no key.
All-update :
    (P : ℕ × Deposit → Type 0) (id : ℕ) (f : Deposit → Deposit) (c : Collection Deposit)
    → ((j : ℕ) (x : Deposit) → P (j, x) → P (j, f x))
    → All P c
    → All P (update_by_id id f c)
unfolding update_by_id
All-update P id f [] g h = tt
All-update P id f ((j, x) ∷ c) g h = elim (Bool-cases (j == id)) [
  | inl t ↦ rw t (g j x h.0, h.1)
  | inr n ↦ rw n (h.0, All-update P id f c g h.1)
]

update-KeysDiffer :
    (id : ℕ) (f : Deposit → Deposit) (c : Collection Deposit)
    → KeysDiffer c
    → KeysDiffer (update_by_id id f c)
unfolding update_by_id
update-KeysDiffer id f [] h = tt
update-KeysDiffer id f ((j, x) ∷ c) h = elim (Bool-cases (j == id)) [
  | inl t ↦ rw t h
  | inr n ↦ rw n (All-update (λ y. j ≢ y.0) id f c (λ i y e. e) h.0, update-KeysDiffer id f c h.1)
]

pub update-IsTidy :
    (id : ℕ) (f : Deposit → Deposit) (c : Collection Deposit)
    → ((x : Deposit) → is_open (f x).status ≡ false)
    → IsTidy c
    → IsTidy (update_by_id id f c)
update-IsTidy id f c shut h = record {
  keys = update-KeysDiffer id f c h.keys;
  clean = All-update IsClean id f c (λ j x p e. absurd (not_both e (shut x))) h.clean;
}

-- A new document has a key of its own.
below_next : (c : Collection Deposit) (n : ℕ) → next_id c ≤ n → All (λ x. x.0 ≢ n) c
unfolding next_id
below_next [] n h = tt
below_next ((j, x) ∷ c) n h = (λ e. omega (arith, e), below_next c n (omega arith))

append-KeysDiffer :
    (c : Collection Deposit) (id : ℕ) (d : Deposit)
    → KeysDiffer c
    → All (λ x. x.0 ≢ id) c
    → KeysDiffer (c ++ (id, d) ∷ [])
append-KeysDiffer [] id d h k = (tt, tt)
append-KeysDiffer ((j, x) ∷ c) id d h k =
    (All-append (λ y. j ≢ y.0) c ((id, d) ∷ []) h.0 (k.0, tt), append-KeysDiffer c id d h.1 k.1)

pub append-IsTidy :
    (c : Collection Deposit) (d : Deposit)
    → is_open d.status ≡ false
    → IsTidy c
    → IsTidy (c ++ (next_id c, d) ∷ [])
append-IsTidy c d shut h = record {
  keys = append-KeysDiffer c (next_id c) d h.keys (below_next c (next_id c) (omega arith));
  clean = All-append IsClean c ((next_id c, d) ∷ []) h.clean ((λ e. absurd (not_both e shut)), tt);
}

pub append-Holds : (k : Key) (c e : Collection Deposit) → Holds k c → Holds k (c ++ e)
unfolding find_one
append-Holds k [] e h = cc
append-Holds k ((j, d) ∷ c) e h = ground (arith, append-Holds k c e)

pub append-Holds_new :
    (k : Key) (c : Collection Deposit) (id : ℕ) (d : Deposit)
    → is_vout k.0 k.1 d ≡ true
    → Holds k (c ++ (id, d) ∷ [])
unfolding find_one
append-Holds_new k [] id d h = ground arith
append-Holds_new k ((j, x) ∷ c) id d h = ground (arith, append-Holds_new k c id d h)
