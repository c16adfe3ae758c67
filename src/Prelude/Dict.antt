-- ===== src/Prelude/Dict.antt =====
-- Go maps with string keys as association lists. The order of the list is one order in which a
-- `range` may visit the map.
use mathlib.Core.Logic.{◌≢◌}
use mathlib.Core.Path.{◌≡◌, refl, subst, sym, ap, ◌∙◌}
use mathlib.Core.Option.{Option, none, some}
use mathlib.Core.List.{List, [], ◌∷◌}
use native.Mathlib.Omega.{arith}
use mathlib.Core.Logic.{inl, inr}
use kuja.Prelude.Lists.{All}
use kuja.Prelude.Tests.{if◌then◌else◌, Bool-cases}
use kuja.Prelude.Bytes.{Str, str_eq, str_eq_iff, str_eq_self}

abbrev pub Dict {ℓ} : Type ℓ → Type ℓ
Dict V = List (Str × V)

module _ {ℓ} {V : Type ℓ} where
  -- `m[k]` with its `ok`
  unfoldable pub lookup : Str → Dict V → Option V
  lookup k [] = none
  lookup k ((j, v) ∷ m) = if str_eq j k then some v else lookup k m

  -- `m[k] = v`
  unfoldable pub insert : Str → V → Dict V → Dict V
  insert k v [] = (k, v) ∷ []
  insert k v ((j, w) ∷ m) = if str_eq j k then (k, v) ∷ m else (j, w) ∷ insert k v m

  -- `delete(m, k)`
  unfoldable pub delete : Str → Dict V → Dict V
  delete k [] = []
  delete k ((j, w) ∷ m) = if str_eq j k then delete k m else (j, w) ∷ delete k m

module _ {ℓ} {V : Type ℓ} where
  pub lookup-insert :
      (k j : Str) (v : V) (m : Dict V)
      → lookup j (insert k v m) ≡ (if str_eq k j then some v else lookup j m)
  unfolding lookup insert
  lookup-insert k j v [] = refl
  lookup-insert k j v ((i, w) ∷ m) =
      ground (arith, str_eq_iff k j, str_eq_iff i k, str_eq_iff i j, lookup-insert k j v m)

  pub lookup-insert_self : (k : Str) (v : V) (m : Dict V) → lookup k (insert k v m) ≡ some v
  lookup-insert_self k v m = simp (lookup-insert, str_eq_self)

  pub lookup-insert_ne :
      (k j : Str) (v : V) (m : Dict V) → k ≢ j → lookup j (insert k v m) ≡ lookup j m
  lookup-insert_ne k j v m h = ground (arith, lookup-insert k j v m, str_eq_iff k j)

  pub lookup-delete :
      (k j : Str) (m : Dict V) → lookup j (delete k m) ≡ (if str_eq k j then none else lookup j m)
  unfolding lookup delete
  lookup-delete k j [] = ground arith
  lookup-delete k j ((i, w) ∷ m) =
      ground (arith, str_eq_iff k j, str_eq_iff i k, str_eq_iff i j, lookup-delete k j m)

-- No key stands twice, as in any Go map.
module _ {ℓ} {V : Type ℓ} where
  abbrev pub Misses : Str → Dict V → Type 0
  Misses k [] = Unit
  Misses k ((j, w) ∷ m) = (j ≢ k) × Misses k m

  abbrev pub Distinct : Dict V → Type 0
  Distinct [] = Unit
  Distinct ((k, v) ∷ m) = Misses k m × Distinct m

module _ {ℓ} {V : Type ℓ} where
  pub Misses-insert :
      (j k : Str) (v : V) (m : Dict V) → k ≢ j → Misses j m → Misses j (insert k v m)
  unfolding insert
  Misses-insert j k v [] ne h = (ne, tt)
  Misses-insert j k v ((i, w) ∷ m) ne h = ground (arith, str_eq_iff i k, Misses-insert j k v m ne)

  pub insert-Distinct : (k : Str) (v : V) (m : Dict V) → Distinct m → Distinct (insert k v m)
  unfolding insert
  insert-Distinct k v [] h = (tt, tt)
  insert-Distinct k v ((i, w) ∷ m) h =
      ground (arith, str_eq_iff i k, Misses-insert i k v m, insert-Distinct k v m)

  pub lookup_of_Misses : (k : Str) (m : Dict V) → Misses k m → lookup k m ≡ none
  unfolding lookup
  lookup_of_Misses k [] h = refl
  lookup_of_Misses k ((i, w) ∷ m) h = ground (arith, str_eq_iff i k, lookup_of_Misses k m)

  pub lookup-cons_self : (k : Str) (v : V) (m : Dict V) → lookup k ((k, v) ∷ m) ≡ some v
  unfolding lookup
  lookup-cons_self k v m = rw (str_eq_self k)

  pub lookup-cons_ne : (k j : Str) (v : V) (m : Dict V) → j ≢ k → lookup k ((j, v) ∷ m) ≡ lookup k m
  unfolding lookup
  lookup-cons_ne k j v m ne = ground (arith, str_eq_iff j k)

pub insert-insert {ℓ} :
    {V : Type ℓ} (k : Str) (v w : V) (m : Dict V) → insert k w (insert k v m) ≡ insert k w m
unfolding insert
insert-insert k v w [] = rw (str_eq_self k) refl
insert-insert k v w ((i, u) ∷ m) = elim (Bool-cases (str_eq i k)) [
  | inl same ↦ rw (same, str_eq_self k) refl
  | inr other ↦
      rw (other, insert) (rw (other, insert) (ap (λ l. (i, u) ∷ l) (insert-insert k v w m)))
]

-- What all values have, one that is found has.
pub lookup-All {ℓ κ} :
    {V : Type ℓ} (P : V → Type κ) (k : Str) (v : V) (m : Dict V)
    → All (λ e. P e.1) m
    → lookup k m ≡ some v
    → P v
unfolding lookup
lookup-All P k v [] all e = absurd cc
lookup-All P k v ((j, w) ∷ m) (p, all) e = elim (Bool-cases (str_eq j k)) [
  | inl same ↦
      let found : some w ≡ some v = sym (ap (λ b. if b then some w else lookup k m) same) ∙ e in
      let is : w ≡ v = cc in subst P is p
  | inr other ↦ lookup-All P k v m all (sym (ap (λ b. if b then some w else lookup k m) other) ∙ e)
]
