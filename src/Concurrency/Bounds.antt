-- ===== src/Concurrency/Bounds.antt =====
-- The pool ends, and keeps within its limit (services/bridge/src/rpc/fair.ts).
use faircoin_bridge.Concurrency.{
  Pool, Run, Step, Worker, begins, begun, busy, idle, min, reject, rejected, rejects, returned,
  settle, settles, start, steps, take, takes,
}
use faircoin_bridge.Prelude.{
  All, List, Option, [], arith, get_elem?, inl, inr, length, length-replicate, length-set,
  lt-get_elem?, none, refl, replicate, set, some, some-injective, suc, zero, ℕ, ◌*◌, ◌+◌, ◌-◌, ◌<◌,
  ◌∷◌, ◌≡◌, ◌≤◌, ◌⊎◌,
}

abbrev weight : {A : Type 0} → Worker A → ℕ
weight idle = 1
weight (busy _ _) = 2
weight _ = 0

abbrev is_busy : {A : Type 0} → Worker A → ℕ
is_busy (busy _ _) = 1
is_busy _ = 0

abbrev total : {A : Type 0} → (Worker A → ℕ) → List (Worker A) → ℕ
total f [] = 0
total f (x ∷ ws) = f x + total f ws

-- The tasks that have been started and have not ended.
abbrev pub in_flight : {A : Type 0} → List (Worker A) → ℕ
in_flight ws = total is_busy ws

-- A worker that makes no more steps.
abbrev pub IsOver : {A : Type 0} → Worker A → Type 0
IsOver idle = ⊥
IsOver (busy _ _) = ⊥
IsOver _ = Unit

total-replicate : (A : Type 0) (n : ℕ) → total weight (replicate {A = Worker A} n idle) ≡ n
total-replicate A zero = refl
total-replicate A (suc n) = omega (arith, total-replicate A n)

module _ {A : Type 0} where
  total-set :
      (f : Worker A → ℕ) (ws : List (Worker A)) (w : ℕ) (v old : Worker A)
      → get_elem? ws w ≡ some old
      → total f (set ws w v) + f old ≡ total f ws + f v
  total-set f [] w v old h = absurd (cc)
  total-set f (x ∷ ws) zero v old h = rw (some-injective _ _ h) (omega arith)
  total-set f (x ∷ ws) (suc w) v old h = omega (arith, total-set f ws w v old h)

  in_flight-le : (ws : List (Worker A)) → in_flight ws ≤ length ws
  in_flight-le [] = omega arith
  in_flight-le (idle ∷ ws) = omega (arith, in_flight-le ws)
  in_flight-le (busy _ _ ∷ ws) = omega (arith, in_flight-le ws)
  in_flight-le (returned ∷ ws) = omega (arith, in_flight-le ws)
  in_flight-le (rejected _ ∷ ws) = omega (arith, in_flight-le ws)

  -- A worker that is not over, if there is one.
  first_live :
      (ws : List (Worker A))
      → All IsOver ws
        ⊎ ((w : ℕ) × (get_elem? ws w ≡ some idle))
        ⊎ ((w i : ℕ) × (a : A) × (get_elem? ws w ≡ some (busy i a)))
  first_live [] = inl tt
  first_live (idle ∷ ws) = inr (inl (0, refl))
  first_live (busy i a ∷ ws) = inr (inr (0, i, a, refl))
  first_live (returned ∷ ws) = elim (first_live ws) [
    | inl h ↦ inl (tt, h)
    | inr (inl (w, e)) ↦ inr (inl (suc w, e))
    | inr (inr (w, i, a, e)) ↦ inr (inr (suc w, i, a, e))
  ]
  first_live (rejected _ ∷ ws) = elim (first_live ws) [
    | inl h ↦ inl (tt, h)
    | inr (inl (w, e)) ↦ inr (inl (suc w, e))
    | inr (inr (w, i, a, e)) ↦ inr (inr (suc w, i, a, e))
  ]

module _ {A B : Type 0} (items : List A) (limit : ℕ) (task : A → B) where
  -- What the pool has still to do.
  measure : Pool A B → ℕ
  measure p = 2 * (length items - p.cursor) + total weight p.workers

  begun-weight :
      (c : ℕ) (o : Option A)
      → get_elem? items c ≡ o
      → 2 * (length items - suc c) + weight (begun items limit task c o) ≤ 2 * (length items - c)
  unfolding begun
  begun-weight c none e = omega arith
  begun-weight c (some a) e = omega (arith, lt-get_elem? items c e)

  Step-measure : {p q : Pool A B} → Step items limit task p q → measure q < measure p
  unfolding measure take settle reject
  Step-measure {p} (takes w at) = omega (
    arith,
    begun-weight p.cursor _ refl,
    total-set weight p.workers w (begun items limit task p.cursor (get_elem? items p.cursor)) idle
        at,
  )
  Step-measure {p} (settles w i a at) =
      omega (arith, total-set weight p.workers w idle (busy i a) at)
  Step-measure {p} (rejects w i a at) =
      omega (arith, total-set weight p.workers w (rejected i) (busy i a) at)

  Step-crew : {p q : Pool A B} → Step items limit task p q → length q.workers ≡ length p.workers
  unfolding take settle reject
  Step-crew {p} (takes w at) = length-set p.workers w _
  Step-crew {p} (settles w i a at) = length-set p.workers w _
  Step-crew {p} (rejects w i a at) = length-set p.workers w _

  Run-measure :
      {n : ℕ} {p : Pool A B}
      → Run items limit task n p
      → n + measure p ≤ 2 * length items + min limit (length items)
  unfolding start measure
  Run-measure begins = omega (arith, total-replicate A (min limit (length items)))
  Run-measure (steps r st) = omega (arith, Run-measure r, Step-measure st)

  Run-crew : {n : ℕ} {p : Pool A B} → Run items limit task n p → length p.workers ≤ limit
  unfolding start min
  Run-crew begins =
      rw (length-replicate {A = Worker A} (min limit (length items)) idle) (ground arith)
  Run-crew (steps r st) = omega (arith, Run-crew r, Step-crew st)

  -- In whatever order the workers run: the pool makes at most two steps for each item and one for each
  -- worker, at most `limit` tasks are under way at a time, and while a worker has not returned or
  -- thrown, some step can be made.
  pub Run-ends :
      {n : ℕ} {p : Pool A B}
      → Run items limit task n p
      → (n ≤ 2 * length items + min limit (length items))
        × (in_flight p.workers ≤ limit)
        × (All IsOver p.workers ⊎ ((q : Pool A B) × Step items limit task p q))
  Run-ends {n} {p} r = (
    omega (arith, Run-measure r),
    omega (arith, in_flight-le p.workers, Run-crew r),
    elim (first_live p.workers) [
      | inl h ↦ inl h
      | inr (inl (w, e)) ↦ inr (take items limit task w p, takes w e)
      | inr (inr (w, i, a, e)) ↦ inr (settle items limit task w i a p, settles w i a e)
    ],
  )
