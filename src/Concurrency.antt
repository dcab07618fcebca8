-- ===== src/Concurrency.antt =====
-- `mapWithConcurrency` of services/bridge/src/rpc/fair.ts: workers that share a cursor over the items.
-- A worker runs between two of its `await`s without being interrupted, and the order in which the
-- workers run is left open. What `task` answers for an item is a function of the item.
pub mod Order
pub mod Bounds
mod Tests
use faircoin_bridge.Prelude.{
  All, List, Option, get_elem?, if◌then◌else◌, length, ltb, none, replicate, set, some, suc, ℕ, ◌≡◌,
}

-- Where a worker stands: at the head of its loop, waiting for its task on an item, or at its end.
pub data Worker (A : Type 0) : Type 0 where
  idle : Worker A
  busy : ℕ → A → Worker A
  returned : Worker A
  rejected : ℕ → Worker A

pub record Pool (A B : Type 0) : Type 0 where
  pub cursor : ℕ
  -- an entry that was not written is `undefined`
  pub results : List (Option B)
  pub workers : List (Worker A)

unfoldable pub min : ℕ → ℕ → ℕ
min a b = if ltb a b then a else b

module _ {A B : Type 0} (items : List A) (limit : ℕ) (task : A → B) where
  unfoldable pub start : Pool A B
  unfolding min
  start = record {
    cursor = 0;
    results = replicate (length items) none;
    workers = replicate (min limit (length items)) idle;
  }

  -- The item at the cursor is taken; past the end the worker returns.
  begun : ℕ → Option A → Worker A
  begun index none = returned
  begun index (some item) = busy index item

  unfoldable pub take : ℕ → Pool A B → Pool A B
  unfolding begun
  take w p = record p {
    cursor = suc p.cursor;
    workers = set p.workers w (begun p.cursor (get_elem? items p.cursor));
  }

  unfoldable pub settle : ℕ → ℕ → A → Pool A B → Pool A B
  settle w index item p = record p {
    results = set p.results index (some (task item));
    workers = set p.workers w idle;
  }

  -- A task that throws ends its worker, and no other.
  unfoldable pub reject : ℕ → ℕ → Pool A B → Pool A B
  reject w index p = record p { workers = set p.workers w (rejected index) }

  pub data Step (p : Pool A B) : Pool A B → Type 0 where
    takes : (w : ℕ) → get_elem? p.workers w ≡ some idle → Step p (take w p)
    settles :
        (w index : ℕ) (item : A)
        → get_elem? p.workers w ≡ some (busy index item)
        → Step p (settle w index item p)
    rejects :
        (w index : ℕ) (item : A)
        → get_elem? p.workers w ≡ some (busy index item)
        → Step p (reject w index p)

  -- The pools that are reached in a number of steps.
  pub data Run : ℕ → Pool A B → Type 0 where
    begins : Run 0 start
    steps : {n : ℕ} {p q : Pool A B} → Run n p → Step p q → Run (suc n) q

  -- `Promise.all(workers)` is fulfilled.
  abbrev pub IsFulfilled : Pool A B → Type 0
  IsFulfilled p = All (λ w. w ≡ returned) p.workers
