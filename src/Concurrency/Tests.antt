-- ===== src/Concurrency/Tests.antt =====
-- The pool at concrete inputs: two workers and three items, whose answers arrive out of order.
use mathlib.Core.List.{map}
use faircoin_bridge.Concurrency.{
  Pool, Run, Step, begins, busy, min, reject, rejects, returned, settle, settles, start, steps,
  take, takes,
}
use faircoin_bridge.Concurrency.Bounds.{IsOver, Run-ends, in_flight}
use faircoin_bridge.Concurrency.Order.{fulfilled-map}
use faircoin_bridge.Prelude.{
  All, List, [], arith, get_elem?, length, refl, some, ℕ, ◌*◌, ◌+◌, ◌∷◌, ◌≡◌, ◌≤◌, ◌⊎◌,
}

abbrev txids : List ℕ
txids = 7 ∷ 8 ∷ 9 ∷ []

abbrev raw_transaction : ℕ → ℕ
raw_transaction txid = 100 + txid

abbrev all_read : Pool ℕ ℕ
all_read = record {
  cursor = 5;
  results = some 107 ∷ some 108 ∷ some 109 ∷ [];
  workers = returned ∷ returned ∷ [];
}

-- The second worker reads two transactions while the first waits for its own.
out_of_order : Run txids 2 raw_transaction 8 all_read
unfolding start min take settle
out_of_order =
    steps
      (steps
        (steps
          (steps
            (steps (steps (steps (steps begins (takes 0 refl)) (takes 1 refl)) (settles 1 1 8 refl))
              (takes 1 refl))
            (settles 1 2 9 refl))
          (takes 1 refl))
        (settles 0 0 7 refl))
      (takes 0 refl)

fulfilled-map_example : all_read.results ≡ map (λ a. some (raw_transaction a)) txids
fulfilled-map_example =
    fulfilled-map txids 2 raw_transaction {p = all_read} (omega arith) out_of_order
      (refl, (refl, tt))

Run-ends_example :
    (8 ≤ 2 * length txids + min 2 (length txids))
    × (in_flight all_read.workers ≤ 2)
    × (All IsOver all_read.workers ⊎ ((q : Pool ℕ ℕ) × Step txids 2 raw_transaction all_read q))
Run-ends_example = Run-ends txids 2 raw_transaction out_of_order

-- After one task has thrown, the other worker goes on to take the next item.
goes_on_after_a_rejection :
    (p : Pool ℕ ℕ) × Run txids 2 raw_transaction 5 p × (get_elem? p.workers 1 ≡ some (busy 2 9))
unfolding start min take settle reject
goes_on_after_a_rejection = (
  _,
  steps
      (steps (steps (steps (steps begins (takes 0 refl)) (takes 1 refl)) (rejects 0 0 7 refl))
        (settles 1 1 8 refl))
      (takes 1 refl),
  refl,
)
