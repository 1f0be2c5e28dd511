-- ===== src/Prelude/Maps.antt =====
-- Go's maps: association lists, whose order stands for the order in which a `range` visits the keys.
use mystic_hypervisor.Prelude.Tests.{if◌then◌else◌, Eq, ◌==◌, ==_refl, ==_ne, Bool-cases}
use mathlib.Core.Path.{◌≡◌, refl, sym}
use mathlib.Core.Logic.{◌≢◌, ◌⊎◌, inl, inr}
use mathlib.Core.Option.{Option, none, some}
use mathlib.Core.List.{List, [], ◌∷◌, map}
use native.Mathlib.Omega.{arith}

abbrev pub GoMap {ℓ κ} : Type ℓ → Type κ → Type (ℓ ⊔ κ)
GoMap K V = List (K × V)

module _ {ℓ κ} {K : Type ℓ} {V : Type κ} where
  abbrev pub values : GoMap K V → List V
  values = map (λ e. e.1)

module _ {ℓ κ} {K : Type ℓ} {V : Type κ} ⦃e : Eq K⦄ where
  -- `v, ok := m[k]`
  unfoldable pub get : K → GoMap K V → Option V
  get k [] = none
  get k ((j, v) ∷ m) = if j == k then some v else get k m

  -- `m[k] = v`
  unfoldable pub put : K → V → GoMap K V → GoMap K V
  put k v [] = (k, v) ∷ []
  put k v ((j, w) ∷ m) = if j == k then (k, v) ∷ m else (j, w) ∷ put k v m

  -- `delete(m, k)`
  unfoldable pub delete : K → GoMap K V → GoMap K V
  delete k [] = []
  delete k ((j, w) ∷ m) = let rest = delete k m in if j == k then rest else (j, w) ∷ rest

  pub get-put :
      (k j : K) (v : V) (m : GoMap K V) → get j (put k v m) ≡ (if k == j then some v else get j m)
  unfolding get put
  get-put k j v [] = refl
  get-put k j v ((i, w) ∷ m) =
      ground (arith, e.same_iff k j, e.same_iff i k, e.same_iff i j, get-put k j v m)

  pub get-delete :
      (k j : K) (m : GoMap K V) → get j (delete k m) ≡ (if k == j then none else get j m)
  unfolding get delete
  get-delete k j [] = ground arith
  get-delete k j ((i, w) ∷ m) =
      ground (arith, e.same_iff k j, e.same_iff i k, e.same_iff i j, get-delete k j m)

  pub get-put_self : (k : K) (v : V) (m : GoMap K V) → get k (put k v m) ≡ some v
  get-put_self k v m = rw (get-put k k v m, ==_refl k)

  pub get-put_ne : (k j : K) (v : V) (m : GoMap K V) → k ≢ j → get j (put k v m) ≡ get j m
  get-put_ne k j v m h = rw (get-put k j v m, ==_ne k j h)

  pub get-delete_self : (k : K) (m : GoMap K V) → get k (delete k m) ≡ none
  get-delete_self k m = rw (get-delete k k m, ==_refl k)

  pub get-delete_ne : (k j : K) (m : GoMap K V) → k ≢ j → get j (delete k m) ≡ get j m
  get-delete_ne k j m h = rw (get-delete k j m, ==_ne k j h)

  -- What is found after a `put` is what was put there, or was there before under another key.
  pub get-put_cases :
      (k j : K) (v w : V) (m : GoMap K V)
      → get j (put k v m) ≡ some w
      → ((k ≡ j) × (v ≡ w)) ⊎ ((j ≢ k) × (get j m ≡ some w))
  get-put_cases k j v w m h = elim (Bool-cases (k == j)) [
    | inl t ↦ inl ((e.same_iff k j).0 t, ground (arith, h, get-put k j v m, t))
    | inr t ↦
        inr (λ q. ground (arith, t, e.same_iff k j, sym q), ground (arith, h, get-put k j v m, t))
  ]

  pub get-delete_cases :
      (k j : K) (w : V) (m : GoMap K V) → get j (delete k m) ≡ some w → (j ≢ k) × (get j m ≡ some w)
  get-delete_cases k j w m h = (
    λ q. ground (arith, h, get-delete k j m, e.same_iff k j, sym q),
    ground (arith, h, get-delete k j m),
  )

module _ {ℓ κ} {K : Type ℓ} {V W : Type κ} ⦃e : Eq K⦄ where
  -- A function of the values, applied to all of a map.
  pub get-map :
      (f : V → W) (k : K) (m : GoMap K V)
      → get k (map (λ x. (x.0, f x.1)) m) ≡ elim (get k m) [ none ↦ none | some v ↦ some (f v) ]
  unfolding get
  get-map f k [] = refl
  get-map f k ((j, v) ∷ m) = elim (Bool-cases (j == k)) [
    | inl t ↦ rw t refl
    | inr t ↦ rw t (get-map f k m)
  ]
