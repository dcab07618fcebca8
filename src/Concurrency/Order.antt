-- ===== src/Concurrency/Order.antt =====
-- The pool implements a map (services/bridge/src/rpc/fair.ts).
use mathlib.Core.List.{map}
use native.Mathlib.Decide.{ℕ_discrete}
use faircoin_bridge.Concurrency.{
  IsFulfilled, Pool, Run, Step, Worker, begins, begun, busy, idle, min, reject, rejected, rejects,
  returned, settle, settles, start, steps, take, takes,
}
use faircoin_bridge.Prelude.{
  All-get_elem?, List, Option, [], ap, arith, get_elem?, get_elem?-none, get_elem?-replicate,
  get_elem?-set_cases, get_elem?-set_ne, get_elem?-set_self, get_elem?-some, inl, inr, length,
  length-replicate, length-set, lt-get_elem?, none, refl, set, some, some-injective, subst, suc,
  sym, ℕ, ◌<◌, ◌∙◌, ◌∷◌, ◌≡◌, ◌≤◌, ◌⊎◌,
}

module _ {A B : Type 0} (items : List A) (limit : ℕ) (task : A → B) where
  abbrev Holds : ℕ → Worker A → Type 0
  Holds i (busy j _) = j ≡ i
  Holds i (rejected j) = j ≡ i
  Holds i _ = ⊥

  -- A worker has this index in its hands.
  abbrev Held : ℕ → List (Worker A) → Type 0
  Held i ws = (w : ℕ) × (x : Worker A) × (get_elem? ws w ≡ some x) × Holds i x

  -- Each item before the cursor has its answer in its place or is held by a worker.
  record Inv (p : Pool A B) : Type 0 where
    taken :
        (i : ℕ) (item : A)
        → get_elem? items i ≡ some item
        → i < p.cursor
        → (get_elem? p.results i ≡ some (some (task item))) ⊎ Held i p.workers
    right :
        (w i : ℕ) (item : A)
        → get_elem? p.workers w ≡ some (busy i item)
        → get_elem? items i ≡ some item
    past : (w : ℕ) → get_elem? p.workers w ≡ some returned → length items ≤ p.cursor
    size : length p.results ≡ length items
    crew : length p.workers ≡ min limit (length items)

  start-Inv : Inv (start items limit task)
  unfolding start
  start-Inv = record {
    taken = λ i item e h. absurd (omega arith);
    right = λ w i item e. absurd (cc (get_elem?-replicate (min limit (length items)) w idle e));
    past = λ w e. absurd (cc (get_elem?-replicate (min limit (length items)) w idle e));
    size = length-replicate (length items) none;
    crew = length-replicate (min limit (length items)) idle;
  }

  -- A worker's write keeps what it held, or what the others hold.
  Held-set :
      (i w : ℕ) (ws : List (Worker A)) (v old : Worker A)
      → get_elem? ws w ≡ some old
      → (Holds i old → Holds i v)
      → Held i ws
      → Held i (set ws w v)
  Held-set i w ws v old at goes (w', x, e, held) = elim (ℕ_discrete w w') [
    | yes same ↦ (
      w,
      v,
      get_elem?-set_self ws w v at,
      goes (
          subst (Holds i) (some-injective _ _ (sym e ∙ (ap (λ n. get_elem? ws n) (sym same) ∙ at)))
            held),
    )
    | no other ↦ (w', x, get_elem?-set_ne ws w w' v other ∙ e, held)
  ]

  begun-busy :
      (c i : ℕ) (item : A) (o : Option A)
      → begun items limit task c o ≡ busy i item
      → (c ≡ i) × (o ≡ some item)
  unfolding begun
  begun-busy c i item none e = absurd (cc)
  begun-busy c i item (some _) e = (cc, cc)

  begun-returned : (c : ℕ) (o : Option A) → begun items limit task c o ≡ returned → o ≡ none
  unfolding begun
  begun-returned c none e = refl
  begun-returned c (some _) e = absurd (cc)

  module _ (p : Pool A B) (inv : Inv p) (w : ℕ) where
    -- A worker that holds nothing may be rewritten.
    others :
        (i : ℕ) (item : A) (v old : Worker A)
        → get_elem? p.workers w ≡ some old
        → (Holds i old → Holds i v)
        → get_elem? items i ≡ some item
        → i < p.cursor
        → (get_elem? p.results i ≡ some (some (task item))) ⊎ Held i (set p.workers w v)
    others i item v old at goes e h = elim (inv.taken i item e h) [
      | inl q ↦ inl q
      | inr q ↦ inr (Held-set i w p.workers v old at goes q)
    ]

    take-Inv : get_elem? p.workers w ≡ some idle → Inv (take items limit task w p)
    unfolding take begun
    take-Inv at = record {
      taken = λ i item e h. elim (ℕ_discrete i p.cursor) [
        | yes same ↦ inr (
          w,
          busy p.cursor item,
          get_elem?-set_self p.workers w _ at
              ∙ ap (λ o. some (begun items limit task p.cursor o))
                  (ap (get_elem? items) (sym same) ∙ e),
          sym same,
        )
        | no other ↦ others i item _ idle at (λ z. absurd z) e (omega arith)
      ];
      right = λ w' i item e. elim (get_elem?-set_cases p.workers w w' _ at e) [
        | inl (same, is) ↦
            let (index, found) = begun-busy p.cursor i item (get_elem? items p.cursor) is in
            ap (get_elem? items) (sym index) ∙ found
        | inr (other, is) ↦ inv.right w' i item is
      ];
      past = λ w' e. elim (get_elem?-set_cases p.workers w w' _ at e) [
        | inl (same, is) ↦
            let none_there = begun-returned p.cursor (get_elem? items p.cursor) is in
            omega (arith, get_elem?-none items p.cursor none_there)
        | inr (other, is) ↦ omega (arith, inv.past w' is)
      ];
      size = inv.size;
      crew = length-set p.workers w _ ∙ inv.crew;
    }

    module _ (index : ℕ) (item : A) (at : get_elem? p.workers w ≡ some (busy index item)) where
      written : get_elem? (set p.results index (some (task item))) index ≡ some (some (task item))
      written =
          let within = lt-get_elem? items index (inv.right w index item at) in
          let (old, there) = get_elem?-some p.results index (omega (arith, within, inv.size)) in
          get_elem?-set_self p.results index (some (task item)) there

      settle-Inv : Inv (settle items limit task w index item p)
      unfolding settle
      settle-Inv = record {
        taken = λ i item' e h. elim (ℕ_discrete index i) [
          | yes same ↦ inl (
              ap (get_elem? (set p.results index (some (task item)))) (sym same)
              ∙ (written
                  ∙ ap (λ a. some (some (task a)))
                      (some-injective _ _
                        (sym (inv.right w index item at) ∙ (ap (get_elem? items) same ∙ e)))))
          | no other ↦ elim (others i item' idle (busy index item) at (λ z. absurd (other z)) e h) [
            | inl q ↦ inl (get_elem?-set_ne p.results index i _ other ∙ q)
            | inr q ↦ inr q
          ]
        ];
        right = λ w' i item' e. elim (get_elem?-set_cases p.workers w w' idle at e) [
          | inl (same, is) ↦ absurd (cc)
          | inr (other, is) ↦ inv.right w' i item' is
        ];
        past = λ w' e. elim (get_elem?-set_cases p.workers w w' idle at e) [
          | inl (same, is) ↦ absurd (cc)
          | inr (other, is) ↦ inv.past w' is
        ];
        size = length-set p.results index _ ∙ inv.size;
        crew = length-set p.workers w _ ∙ inv.crew;
      }

      reject-Inv : Inv (reject items limit task w index p)
      unfolding reject
      reject-Inv = record {
        taken = λ i item' e h. others i item' (rejected index) (busy index item) at (λ z. z) e h;
        right = λ w' i item' e. elim (get_elem?-set_cases p.workers w w' (rejected index) at e) [
          | inl (same, is) ↦ absurd (cc)
          | inr (other, is) ↦ inv.right w' i item' is
        ];
        past = λ w' e. elim (get_elem?-set_cases p.workers w w' (rejected index) at e) [
          | inl (same, is) ↦ absurd (cc)
          | inr (other, is) ↦ inv.past w' is
        ];
        size = inv.size;
        crew = length-set p.workers w _ ∙ inv.crew;
      }

  Step-Inv : {p q : Pool A B} → Inv p → Step items limit task p q → Inv q
  Step-Inv {p} inv (takes w at) = take-Inv p inv w at
  Step-Inv {p} inv (settles w index item at) = settle-Inv p inv w index item at
  Step-Inv {p} inv (rejects w index item at) = reject-Inv p inv w index item at

  Run-Inv : {n : ℕ} {p : Pool A B} → Run items limit task n p → Inv p
  Run-Inv begins = start-Inv
  Run-Inv (steps r st) = Step-Inv (Run-Inv r) st

  collected :
      (xs : List A) (ys : List (Option B))
      → length ys ≡ length xs
      → ((i : ℕ) (a : A) → get_elem? xs i ≡ some a → get_elem? ys i ≡ some (some (task a)))
      → ys ≡ map (λ a. some (task a)) xs
  collected [] [] size h = refl
  collected [] (y ∷ ys) size h = absurd (omega (arith, size))
  collected (x ∷ xs) [] size h = absurd (omega (arith, size))
  collected (x ∷ xs) (y ∷ ys) size h =
      cc (h 0 x refl, collected xs ys (omega (arith, size)) (λ i a e. h (suc i) a e))

  nothing-Held : (i : ℕ) (p : Pool A B) → IsFulfilled items limit task p → ¬ Held i p.workers
  nothing-Held i p done_all (w, x, e, held) =
      subst (Holds i) (All-get_elem? (λ w. w ≡ returned) p.workers w done_all e) held

  -- Where the limit is not 0: whatever order the workers ran in, once all of them have returned, the
  -- results are the answers to the items, each in its item's place.
  pub fulfilled-map :
      {n : ℕ} {p : Pool A B}
      → 0 < limit
      → Run items limit task n p
      → IsFulfilled items limit task p
      → p.results ≡ map (λ a. some (task a)) items
  fulfilled-map {n} {p} some_worker r done_all = collected items p.results inv.size (λ i a e.
      elim (inv.taken i a e (reached i e)) [
        | inl q ↦ q
        | inr q ↦ absurd (nothing-Held i p done_all q)
      ])
    where
      inv : Inv p
      inv = Run-Inv r

      reached : (i : ℕ) {a : A} → get_elem? items i ≡ some a → i < p.cursor
      reached i e =
          let there = lt-get_elem? items i e in
          let crew : 0 < length p.workers = rw inv.crew (unfold min in ground arith) in
          let (x, first_worker) = get_elem?-some p.workers 0 crew in
          let ended = All-get_elem? (λ w. w ≡ returned) p.workers 0 done_all first_worker in
          omega (arith, inv.past 0 (first_worker ∙ ap some ended), there)
