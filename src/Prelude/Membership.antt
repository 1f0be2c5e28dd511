-- ===== src/Prelude/Membership.antt =====
-- Membership in a list, and what the list functions do to it.
use mathlib.Core.Bool.{Bool, true, false, ◌||◌}
use mathlib.Core.List.{List, [], ◌∷◌, ◌++◌, map}
use mathlib.Core.Logic.{◌⊎◌, ◌↔◌, inl, inr}
use mathlib.Core.Path.{◌≡◌, refl, sym, ap, ◌∙◌}
use mystic_hypervisor.Prelude.Lists.{any, keep}

-- The value is an element of the list.
abbrev pub In : {A : Type 0} → A → List A → Type 0
In x [] = ⊥
In x (y ∷ ys) = (y ≡ x) ⊎ In x ys

pub In-append : {A : Type 0} (x : A) (xs ys : List A) → In x (xs ++ ys) ↔ (In x xs ⊎ In x ys)
In-append x [] ys = (λ h. inr h, λ h. elim h [ inl n ↦ absurd n | inr i ↦ i ])
In-append x (y ∷ xs) ys = step (In-append x xs ys)
  where
    step : In x (xs ++ ys) ↔ (In x xs ⊎ In x ys) → In x ((y ∷ xs) ++ ys) ↔ (In x (y ∷ xs) ⊎ In x ys)
    step ih = (
      λ h. elim h [
        | inl e ↦ inl (inl e)
        | inr i ↦ elim (ih.0 i) [ inl a ↦ inl (inr a) | inr b ↦ inr b ]
      ],
      λ h. elim h [
        | inl a ↦ elim a [ inl e ↦ inl e | inr i ↦ inr (ih.1 (inl i)) ]
        | inr b ↦ inr (ih.1 (inr b))
      ],
    )

pub In-map :
    {A B : Type 0} (f : A → B) (b : B) (xs : List A)
    → In b (map f xs) ↔ ((x : A) × In x xs × (f x ≡ b))
In-map f b [] = (λ h. absurd h, λ (x, i, e). absurd i)
In-map {A} f b (y ∷ xs) = step (In-map f b xs)
  where
    step :
        In b (map f xs) ↔ ((x : A) × In x xs × (f x ≡ b))
        → In b (map f (y ∷ xs)) ↔ ((x : A) × In x (y ∷ xs) × (f x ≡ b))
    step ih = (
      λ h. elim h [ inl e ↦ (y, inl refl, e) | inr i ↦ let (x, j, e) = ih.0 i in (x, inr j, e) ],
      λ (x, i, e). elim i [ inl q ↦ inl (ap f q ∙ e) | inr j ↦ inr (ih.1 (x, j, e)) ],
    )

pub In-keep :
    {A : Type 0} (p : A → Bool) (x : A) (xs : List A) → In x (keep p xs) ↔ (In x xs × (p x ≡ true))
In-keep p x [] = (λ h. absurd h, λ (i, e). absurd i)
In-keep {A} p x (y ∷ xs) = step (p y) refl (In-keep p x xs)
  where
    step :
        (b : Bool)
        → p y ≡ b
        → In x (keep p xs) ↔ (In x xs × (p x ≡ true))
        → In x (elim b [ true ↦ y ∷ keep p xs | false ↦ keep p xs ])
          ↔ (In x (y ∷ xs) × (p x ≡ true))
    step true t ih = (
      λ h. elim h [ inl e ↦ (inl e, sym (ap p e) ∙ t) | inr i ↦ (inr (ih.0 i).0, (ih.0 i).1) ],
      λ (i, e). elim i [ inl q ↦ inl q | inr j ↦ inr (ih.1 (j, e)) ],
    )
    step false t ih = (
      λ h. (inr (ih.0 h).0, (ih.0 h).1),
      λ (i, e). elim i [ inl q ↦ cc (ap p q, t, e) | inr j ↦ ih.1 (j, e) ],
    )

pub any_iff :
    {A : Type 0} (p : A → Bool) (xs : List A)
    → (any p xs ≡ true) ↔ ((x : A) × In x xs × (p x ≡ true))
any_iff p [] = (λ h. cc, λ (x, i, e). absurd i)
any_iff {A} p (y ∷ xs) = step (p y) refl (any_iff p xs)
  where
    step :
        (b : Bool)
        → p y ≡ b
        → (any p xs ≡ true) ↔ ((x : A) × In x xs × (p x ≡ true))
        → ((b || any p xs) ≡ true) ↔ ((x : A) × In x (y ∷ xs) × (p x ≡ true))
    step true t ih = (λ _. (y, inl refl, t), λ _. refl)
    step false t ih = (
      λ h. let (x, i, e) = ih.0 h in (x, inr i, e),
      λ (x, i, e). elim i [ inl q ↦ cc (ap p q, t, e) | inr j ↦ ih.1 (x, j, e) ],
    )
