-- ===== src/Prelude/Collection.antt =====
-- A document collection, keyed by `_id`, oldest document first. A query that names `_id` looks at
-- the one document with that key; any other query takes the first document that passes.
use Prim.Native.Nat.{ℕ, suc, ◌+◌, ◌≤◌}
use mathlib.Core.Path.{◌≡◌, refl}
use mathlib.Core.Logic.{◌≢◌, ◌⊎◌, inl, inr}
use mathlib.Core.Bool.{Bool, true, false}
use mathlib.Core.Option
use mathlib.Core.Option.{Option, none, some}
use mathlib.Core.List.{List, [], ◌∷◌, ◌++◌}
use native.Mathlib.Omega.{arith}
use faircoin_bridge.Prelude.Tests.{◌==◌, if◌then◌else◌}

abbrev pub Collection {ℓ} : Type ℓ → Type ℓ
Collection D = List (ℕ × D)

module _ {ℓ} {D : Type ℓ} where
  -- `findById`
  unfoldable pub find_by_id : ℕ → Collection D → Option D
  find_by_id i [] = none
  find_by_id i ((j, d) ∷ c) = if j == i then some d else find_by_id i c

  -- `updateOne({ _id }, { $set })`: a missing key changes nothing.
  unfoldable pub update_by_id : ℕ → (D → D) → Collection D → Collection D
  update_by_id i f [] = []
  update_by_id i f ((j, d) ∷ c) = if j == i then (j, f d) ∷ c else (j, d) ∷ update_by_id i f c

  -- `findOneAndUpdate({ _id, … }, { $set }, { new: true })`: atomic, and `none` if the filter fails.
  unfoldable pub claim_by_id : ℕ → (D → Bool) → (D → D) → Collection D → Option D × Collection D
  claim_by_id i p f c = elim (find_by_id i c) [
    | none ↦ (none, c)
    | some d ↦ if p d then (some (f d), update_by_id i f c) else (none, c)
  ]

  -- `findOneAndUpdate` by a filter without a key: the first document that passes.
  unfoldable pub update_first : (D → Bool) → (D → D) → Collection D → Collection D
  update_first p f [] = []
  update_first p f ((j, d) ∷ c) = if p d then (j, f d) ∷ c else (j, d) ∷ update_first p f c

  -- The key of a new document: MongoDB's are unique, and this one is not in use.
  unfoldable pub next_id : Collection D → ℕ
  next_id [] = 0
  next_id ((j, d) ∷ c) = suc j + next_id c

  -- `findOneAndUpdate` by a filter without a key, with the document that it returns.
  unfoldable pub claim_first : (D → Bool) → (D → D) → Collection D → Option (ℕ × D) × Collection D
  claim_first p f [] = (none, [])
  claim_first p f ((j, d) ∷ c) =
      let rest = claim_first p f c in
      if p d then (some (j, f d), (j, f d) ∷ c) else (rest.0, (j, d) ∷ rest.1)

  -- The first document that passes, with its key: `findOne`, oldest first.
  unfoldable pub find_one : (D → Bool) → Collection D → Option (ℕ × D)
  find_one p [] = none
  find_one p ((j, d) ∷ c) = if p d then some (j, d) else find_one p c

  -- `updateMany`
  unfoldable pub update_all : (D → Bool) → (D → D) → Collection D → Collection D
  update_all p f [] = []
  update_all p f ((j, d) ∷ c) = (j, if p d then f d else d) ∷ update_all p f c

  -- All documents that pass: `find`.
  unfoldable pub find_all : (D → Bool) → Collection D → Collection D
  find_all p [] = []
  find_all p ((j, d) ∷ c) = if p d then (j, d) ∷ find_all p c else find_all p c

  pub find_by_id-update :
      (i j : ℕ) (f : D → D) (c : Collection D)
      → find_by_id j (update_by_id i f c)
        ≡ (if i == j then Option.map f (find_by_id j c) else find_by_id j c)
  unfolding find_by_id update_by_id
  find_by_id-update i j f [] = ground arith
  find_by_id-update i j f ((k, d) ∷ c) = ground (arith, find_by_id-update i j f c)

  pub find_by_id-update_self :
      (i : ℕ) (f : D → D) (c : Collection D) {d : D}
      → find_by_id i c ≡ some d
      → find_by_id i (update_by_id i f c) ≡ some (f d)
  find_by_id-update_self i f c h = ground (arith, find_by_id-update i i f c)

  pub find_by_id-update_ne :
      (i j : ℕ) (f : D → D) (c : Collection D)
      → i ≢ j
      → find_by_id j (update_by_id i f c) ≡ find_by_id j c
  find_by_id-update_ne i j f c h = ground (arith, find_by_id-update i j f c)

  find_by_id-fresh : (c : Collection D) (i : ℕ) → next_id c ≤ i → find_by_id i c ≡ none
  unfolding find_by_id next_id
  find_by_id-fresh [] i h = refl
  find_by_id-fresh ((j, d) ∷ c) i h = ground (arith, find_by_id-fresh c i (omega arith))

  find_by_id-last :
      (c : Collection D) (i : ℕ) (d : D)
      → find_by_id i c ≡ none
      → find_by_id i (c ++ (i, d) ∷ []) ≡ some d
  unfolding find_by_id
  find_by_id-last [] i d h = ground arith
  find_by_id-last ((j, x) ∷ c) i d h = ground (arith, find_by_id-last c i d)

  -- A document that is created is found by its key.
  pub find_by_id-next :
      (c : Collection D) (d : D) → find_by_id (next_id c) (c ++ (next_id c, d) ∷ []) ≡ some d
  find_by_id-next c d = find_by_id-last c _ d (find_by_id-fresh c _ (omega arith))

  -- A claim changes nothing, or the one document.
  pub claim_by_id-cases :
      (i : ℕ) (p : D → Bool) (f : D → D) (c : Collection D)
      → ((claim_by_id i p f c).1 ≡ c) ⊎ ((claim_by_id i p f c).1 ≡ update_by_id i f c)
  unfolding claim_by_id
  claim_by_id-cases i p f c = go (find_by_id i c)
    where
      R : Type ℓ
      R = Option D × Collection D

      claimed : D → Bool → R
      claimed d b = if b then (some (f d), update_by_id i f c) else (none, c)

      under : (d : D) (b : Bool) → ((claimed d b).1 ≡ c) ⊎ ((claimed d b).1 ≡ update_by_id i f c)
      under d true = inr refl
      under d false = inl refl

      result : Option D → R
      result o = elim o [ none ↦ (none, c) | some d ↦ claimed d (p d) ]

      go : (o : Option D) → ((result o).1 ≡ c) ⊎ ((result o).1 ≡ update_by_id i f c)
      go none = inl refl
      go (some d) = under d (p d)
