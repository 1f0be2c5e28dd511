-- ===== src/Text/Parts.antt =====
-- strings.Split at one character, and how it meets a text that was joined by that character.
use Prim.Native.Char.{Char, code}
use Prim.Native.String.{◌++◌}
use text.Mathlib.TextLemmas.{nil-append, cons-append}
use mystic_hypervisor.Text.{codes}
use mystic_hypervisor.Prelude.{
  ℕ, ◌≡◌, ◌≢◌, refl, String, List, [], ◌∷◌, arith, All, ◌==◌, nat_eq, if◌then◌else◌, Bool-cases,
  inl, inr,
}

unfoldable pub add_part : ℕ → Char → List String → List String
add_part sep c [] = []
add_part sep c (p ∷ ps) = if code c == sep then "" ∷ p ∷ ps else String.◌∷◌ c p ∷ ps

-- strings.Split(s, sep), for a separator of one character.
unfoldable pub split : ℕ → String → List String
unfolding add_part
split sep String.[] = "" ∷ []
split sep (String.◌∷◌ c s) = add_part sep c (split sep s)

abbrev pub Lacks : ℕ → String → Type 0
Lacks sep s = All (λ c. c ≢ sep) (codes s)

pub split_of_Lacks : (sep : ℕ) (s : String) → Lacks sep s → split sep s ≡ s ∷ []
unfolding split
split_of_Lacks sep String.[] h = refl
split_of_Lacks sep (String.◌∷◌ c s) h =
    rw (split_of_Lacks sep s h.1, add_part) (ground (arith, h.0))

split-cons : (sep : ℕ) (t : String) → (p : String) × (ps : List String) × (split sep t ≡ p ∷ ps)
unfolding split
split-cons sep String.[] = ("", [], refl)
split-cons sep (String.◌∷◌ c t) = add_part-cons sep c (split sep t) (split-cons sep t)
  where
    add_part-cons :
        (sep : ℕ) (c : Char) (l : List String)
        → (p : String) × (ps : List String) × (l ≡ p ∷ ps)
        → (p : String) × (ps : List String) × (add_part sep c l ≡ p ∷ ps)
    add_part-cons sep c [] (p, ps, e) = cc
    add_part-cons sep c (q ∷ qs) h = elim (Bool-cases (code c == sep)) [
      | inl e ↦ ("", q ∷ qs, rw e)
      | inr e ↦ (String.◌∷◌ c q, qs, rw e)
    ]

-- The part before a separator is split off.
pub split-append :
    (sep : ℕ) (c : Char) (s t : String)
    → code c ≡ sep
    → Lacks sep s
    → split sep (s ++ String.◌∷◌ c t) ≡ s ∷ split sep t
unfolding split
split-append sep c String.[] t e h =
    rw (nil-append (String.◌∷◌ c t), split) (here (split-cons sep t))
  where
    here :
        (p : String) × (ps : List String) × (split sep t ≡ p ∷ ps)
        → add_part sep c (split sep t) ≡ "" ∷ split sep t
    here (p, ps, l) = rw (l, add_part) (ground (arith, e))
split-append sep c (String.◌∷◌ d s) t e h =
    rw (cons-append d s (String.◌∷◌ c t), split, split-append sep c s t e h.1) (ground (arith, h.0))
