-- ===== src/Prelude/Dicts.antt =====
-- A Python dict with text keys, in insertion order.
use Prim.Native.String.{String}
use mathlib.Core.Path.{◌≡◌, refl, sym, ap, subst}
use mathlib.Core.Bool.{Bool, true, false}
use mathlib.Core.Logic.{inl, inr}
use mathlib.Core.Option
use mathlib.Core.Option.{Option, none, some}
use mathlib.Core.List.{List, [], ◌∷◌, map}
use native.Mathlib.Omega.{arith}
use text.Mathlib.Text.{◌==◌}
use text.Mathlib.TextEquality.{eq_iff}
use text.Mathlib.TextPositions.{eq_refl}
use porpulsion.Prelude.Tests.{if◌then◌else◌, is_some, or_default, Bool-cases, Option-cases}

abbrev pub Dict {ℓ} : Type ℓ → Type ℓ
Dict V = List (String × V)

module _ {ℓ} {V : Type ℓ} where
  -- `d.get(k)`
  unfoldable pub lookup : String → Dict V → Option V
  lookup k [] = none
  lookup k ((j, v) ∷ d) = let rest = lookup k d in if j == k then some v else rest

  -- `k in d`
  abbrev pub contains : String → Dict V → Bool
  contains k d = is_some (lookup k d)

  -- `d[k] = v`
  unfoldable pub insert : String → V → Dict V → Dict V
  insert k v [] = (k, v) ∷ []
  insert k v ((j, w) ∷ d) = let rest = insert k v d in if j == k then (j, v) ∷ d else (j, w) ∷ rest

  -- `d.pop(k, None)`
  unfoldable pub erase : String → Dict V → Dict V
  erase k [] = []
  erase k ((j, v) ∷ d) = let rest = erase k d in if j == k then rest else (j, v) ∷ rest

  -- `d.values()`
  abbrev pub values : Dict V → List V
  values = map (λ e. e.1)

  pub lookup-insert :
      (k j : String) (v : V) (d : Dict V)
      → lookup j (insert k v d) ≡ (if k == j then some v else lookup j d)
  unfolding lookup insert
  lookup-insert k j v [] = refl
  lookup-insert k j v ((i, w) ∷ d) =
      ground (arith, eq_iff k j, eq_iff i k, eq_iff i j, lookup-insert k j v d)

  pub lookup-insert_self : (k : String) (v : V) (d : Dict V) → lookup k (insert k v d) ≡ some v
  lookup-insert_self k v d = simp (lookup-insert, eq_refl)

  pub lookup-erase :
      (k j : String) (d : Dict V) → lookup j (erase k d) ≡ (if k == j then none else lookup j d)
  unfolding lookup erase
  lookup-erase k j [] = ground arith
  lookup-erase k j ((i, w) ∷ d) =
      ground (arith, eq_iff k j, eq_iff i k, eq_iff i j, lookup-erase k j d)

differs : (a b : String) → (b == a) ≡ false → (a == b) ≡ false
differs a b h = ground (arith, eq_iff a b, eq_iff b a)

module _ {ℓ} {V : Type ℓ} where
  -- every key stands once, as in a Python dict
  abbrev pub IsDistinct : Dict V → Type 0
  IsDistinct [] = Unit
  IsDistinct ((k, v) ∷ d) = (is_some (lookup k d) ≡ false) × IsDistinct d

  contains-insert_ne :
      (j k : String) (v : V) (d : Dict V)
      → (k == j) ≡ false
      → is_some (lookup j d) ≡ false
      → is_some (lookup j (insert k v d)) ≡ false
  contains-insert_ne j k v d n h = rw (lookup-insert, n) h

  contains-erase :
      (j k : String) (d : Dict V)
      → is_some (lookup j d) ≡ false
      → is_some (lookup j (erase k d)) ≡ false
  contains-erase j k d h = elim (Bool-cases (k == j)) [
    | inl same ↦ rw (lookup-erase, same) refl
    | inr other ↦ rw (lookup-erase, other) h
  ]

  pub insert-IsDistinct :
      (k : String) (v : V) (d : Dict V) → IsDistinct d → IsDistinct (insert k v d)
  unfolding insert lookup
  insert-IsDistinct k v [] h = (refl, tt)
  insert-IsDistinct k v ((j, w) ∷ d) (h, hs) = elim (Bool-cases (j == k)) [
    | inl same ↦ rw same (h, hs)
    | inr other ↦
        rw other (contains-insert_ne j k v d (differs k j other) h, insert-IsDistinct k v d hs)
  ]

  pub erase-IsDistinct : (k : String) (d : Dict V) → IsDistinct d → IsDistinct (erase k d)
  unfolding erase
  erase-IsDistinct k [] h = tt
  erase-IsDistinct k ((j, v) ∷ d) (h, hs) = elim (Bool-cases (j == k)) [
    | inl same ↦ rw same (erase-IsDistinct k d hs)
    | inr other ↦ rw other (contains-erase j k d h, erase-IsDistinct k d hs)
  ]

pub lookup-absent {ℓ} :
    {V : Type ℓ} (j k : String) (d : Dict V)
    → (j == k) ≡ true
    → is_some (lookup j d) ≡ false
    → lookup k d ≡ none
lookup-absent j k d same h = elim (Option-cases (lookup k d)) [
  | inl e ↦ e
  | inr (p, e) ↦ cc (h, (eq_iff j k).0 same, e)
]

-- a property of every key with its value
module _ {ℓ} {V : Type ℓ} (P : String → V → Type 0) where
  abbrev pub Each : Dict V → Type 0
  Each [] = Unit
  Each ((k, v) ∷ d) = P k v × Each d

  pub insert-Each : (k : String) (v : V) (d : Dict V) → P k v → Each d → Each (insert k v d)
  unfolding insert
  insert-Each k v [] p h = (p, tt)
  insert-Each k v ((j, w) ∷ d) p (h, hs) = elim (Bool-cases (j == k)) [
    | inl same ↦ rw same (subst (λ i. P i v) (sym ((eq_iff j k).0 same)) p, hs)
    | inr other ↦ rw other (h, insert-Each k v d p hs)
  ]

  pub erase-Each : (k : String) (d : Dict V) → Each d → Each (erase k d)
  unfolding erase
  erase-Each k [] h = tt
  erase-Each k ((j, w) ∷ d) (h, hs) = elim (Bool-cases (j == k)) [
    | inl same ↦ rw same (erase-Each k d hs)
    | inr other ↦ rw other (h, erase-Each k d hs)
  ]

  pub lookup-Each : (k : String) (v : V) (d : Dict V) → Each d → lookup k d ≡ some v → P k v
  unfolding lookup
  lookup-Each k v [] h = λ e. cc
  lookup-Each k v ((j, w) ∷ d) (h, hs) = elim (Bool-cases (j == k)) [
    | inl same ↦
        rw same
          (λ e. subst (λ i. P i v) ((eq_iff j k).0 same) (subst (P j) (ap (or_default w) e) h))
    | inr other ↦ rw other (lookup-Each k v d hs)
  ]

-- a change of every value leaves the keys
pub lookup-map {ℓ κ} :
    {V : Type ℓ} {W : Type κ} (f : V → W) (k : String) (d : Dict V)
    → lookup k (map (λ e. (e.0, f e.1)) d) ≡ Option.map f (lookup k d)
unfolding lookup
lookup-map f k [] = refl
lookup-map f k ((j, v) ∷ d) = elim (Bool-cases (j == k)) [
  | inl same ↦ rw same
  | inr other ↦ rw other (lookup-map f k d)
]

pub ruleset dict_laws = (lookup-insert, lookup-erase, eq_refl)
