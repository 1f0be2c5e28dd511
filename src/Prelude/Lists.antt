-- ===== src/Prelude/Lists.antt =====
-- Lists measured by native numbers, and predicates on lists.
use Prim.Native.Nat.{ℕ, suc}
use mathlib.Core.Path.{◌≡◌, refl, ap}
use mathlib.Core.Bool.{Bool, true, false, ◌||◌}
use mathlib.Core.List.{List, [], ◌∷◌, ◌++◌}

module _ {ℓ} {A : Type ℓ} where
  abbrev pub length : List A → ℕ
  length [] = 0
  length (x ∷ xs) = suc (length xs)

  abbrev pub any : (A → Bool) → List A → Bool
  any p [] = false
  any p (x ∷ xs) = p x || any p xs

  -- What the elements have that pass a test.
  abbrev pub keep : (A → Bool) → List A → List A
  keep p [] = []
  keep p (x ∷ xs) = elim (p x) [ true ↦ x ∷ keep p xs | false ↦ keep p xs ]

  pub keep_hit : (p : A → Bool) (x : A) (xs : List A) → p x ≡ true → keep p (x ∷ xs) ≡ x ∷ keep p xs
  keep_hit p x xs h = ap (λ b. elim b [ true ↦ x ∷ keep p xs | false ↦ keep p xs ]) h

  pub keep_miss : (p : A → Bool) (x : A) (xs : List A) → p x ≡ false → keep p (x ∷ xs) ≡ keep p xs
  keep_miss p x xs h = ap (λ b. elim b [ true ↦ x ∷ keep p xs | false ↦ keep p xs ]) h

  pub keep-append : (p : A → Bool) (xs ys : List A) → keep p (xs ++ ys) ≡ keep p xs ++ keep p ys
  keep-append p [] ys = refl
  keep-append p (x ∷ xs) ys = by_test (p x) (keep-append p xs ys)
    where
      by_test :
          (b : Bool)
          → keep p (xs ++ ys) ≡ keep p xs ++ keep p ys
          → (elim b [ true ↦ x ∷ keep p (xs ++ ys) | false ↦ keep p (xs ++ ys) ])
            ≡ (elim b [ true ↦ x ∷ keep p xs | false ↦ keep p xs ]) ++ keep p ys
      by_test true h = ap (λ l. x ∷ l) h
      by_test false h = h

  pub any-append : (p : A → Bool) (xs ys : List A) → any p (xs ++ ys) ≡ (any p xs || any p ys)
  any-append p [] ys = refl
  any-append p (x ∷ xs) ys = by_test (p x) (any-append p xs ys)
    where
      by_test :
          (b : Bool)
          → any p (xs ++ ys) ≡ (any p xs || any p ys)
          → (b || any p (xs ++ ys)) ≡ ((b || any p xs) || any p ys)
      by_test true h = refl
      by_test false h = h

  pub append_nil : (xs : List A) → xs ++ [] ≡ xs
  append_nil [] = refl
  append_nil (x ∷ xs) = ap (λ l. x ∷ l) (append_nil xs)

module _ {ℓ κ} {A : Type ℓ} (P : A → Type κ) where
  abbrev pub All : List A → Type κ
  All [] = Unit
  All (x ∷ xs) = P x × All xs

  pub All-append : (xs ys : List A) → All xs → All ys → All (xs ++ ys)
  All-append [] ys hx hy = hy
  All-append (x ∷ xs) ys hx hy = (hx.0, All-append xs ys hx.1 hy)

module _ {ℓ κ} {A : Type ℓ} {P : A → Type κ} {Q : A → Type κ} (f : (x : A) → P x → Q x) where
  pub All-map : (xs : List A) → All P xs → All Q xs
  All-map [] h = _
  All-map (x ∷ xs) h = (f x h.0, All-map xs h.1)
