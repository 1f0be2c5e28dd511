-- ===== src/Snapshots/Name/Syntax.antt =====
-- Which names of snapshots are accepted.
use Prim.Native.Char.{code}
use mystic_hypervisor.Prelude.{
  ℕ, zero, suc, ◌≤◌, ◌≡◌, ◌≢◌, ◌↔◌, refl, sym, none, String, true, false, ◌==◌, ◌&&◌, nat_eq,
  string_eq, List, [], ◌∷◌, All, All-map, length, ltb, arith, subst, ==_ne, and_split, if_elim,
}
use mystic_hypervisor.Snapshots.Name.{
  byte_length, is_alphanumeric, is_name_character, matches_name, matches_rest, name_fault,
  validate_snapshot_name, width,
}
use mystic_hypervisor.Text.Parts.{Lacks}
use mystic_hypervisor.Text.{codes, is_space, trim_left, trim_right, trim_space}

-- A letter or a digit, and at most 62 characters that are letters, digits, `_`, `.` or `-`.
abbrev pub IsName : List ℕ → Type 0
IsName [] = ⊥
IsName (c ∷ cs) =
    (is_alphanumeric c ≡ true) × All (λ d. is_name_character d ≡ true) cs × (length cs ≤ 62)

matches_rest_iff :
    (n : ℕ) (cs : List ℕ)
    → (matches_rest n cs ≡ true) ↔ (All (λ d. is_name_character d ≡ true) cs × (length cs ≤ n))
unfolding matches_rest
matches_rest_iff n [] = (λ _. (_, omega arith), λ _. refl)
matches_rest_iff zero (c ∷ cs) = (λ h. cc, λ (_, h). absurd (omega arith))
matches_rest_iff (suc n) (c ∷ cs) =
    let (to, from) = matches_rest_iff n cs in
    (
      λ h. let (a, b) = to (ground (arith, h)) in ((ground (arith, h), a), omega arith),
      λ ((a, b), c). ground (arith, a, from (b, omega arith)),
    )

pub matches_name_iff : (cs : List ℕ) → (matches_name cs ≡ true) ↔ IsName cs
unfolding matches_name
matches_name_iff [] = (λ h. cc, λ h. absurd h)
matches_name_iff (c ∷ cs) =
    let (to, from) = matches_rest_iff 62 cs in
    (
      λ h. let (a, b) = to (ground (arith, h)) in (ground (arith, h), a, b),
      λ (a, b, d). ground (arith, a, from (b, d)),
    )

-- The characters of a name have one byte each, and none of them is a slash.
plain : (c : ℕ) → is_name_character c ≡ true → (width c ≡ 1) × (c ≢ b'/')
unfolding is_name_character is_alphanumeric width
plain c h = (grind (arith, h), λ q. grind (arith, h, q))

byte_length-plain :
    (cs : List ℕ) → All (λ d. is_name_character d ≡ true) cs → byte_length cs ≡ length cs
unfolding byte_length
byte_length-plain [] h = refl
byte_length-plain (c ∷ cs) h =
    let (one, _) = plain c h.0 in let rest = byte_length-plain cs h.1 in omega arith

alphanumeric :
    (c : ℕ) → is_alphanumeric c ≡ true → (is_name_character c ≡ true) × ((c == b'-') ≡ false)
unfolding is_name_character is_alphanumeric
alphanumeric c h = (ground (arith, h), grind (arith, h))

-- A name passes every check that stands before the pattern.
name_fault_of_IsName : (s : String) → IsName (codes s) → name_fault s ≡ none
unfolding name_fault
name_fault_of_IsName String.[] h = absurd h
name_fault_of_IsName (String.◌∷◌ c s) h =
    let (first, no_hyphen) = alphanumeric (code c) h.0 in
    let short = byte_length-plain (codes (String.◌∷◌ c s)) (first, h.1) in
    let matches = (matches_name_iff (codes (String.◌∷◌ c s))).1 h in
    let some_text : (String.◌∷◌ c s == "") ≡ false = ==_ne (String.◌∷◌ c s) "" (λ q. cc) in
    let fits : ltb 64 (byte_length (codes (String.◌∷◌ c s))) ≡ false = ground (arith, short, h.2) in
    rw (name_fault, some_text, no_hyphen, fits, matches) refl

name_fault-IsName : (s : String) → name_fault s ≡ none → IsName (codes s)
unfolding name_fault
name_fault-IsName s h = (matches_name_iff (codes s)).0 (ground (arith, h))

pub validate_snapshot_name_iff :
    (name : String) → (validate_snapshot_name name ≡ none) ↔ IsName (codes (trim_space name))
unfolding validate_snapshot_name
validate_snapshot_name_iff name =
    (name_fault-IsName (trim_space name), name_fault_of_IsName (trim_space name))

space : (c : ℕ) → is_space c ≡ true → c ≢ b'/'
unfolding is_space
space c h q = grind (arith, h, q)

Lacks-trim_left : (s : String) → Lacks b'/' (trim_left s) → Lacks b'/' s
unfolding trim_left
Lacks-trim_left String.[] h = _
Lacks-trim_left (String.◌∷◌ c s) h =
    if_elim (λ t. Lacks b'/' t → Lacks b'/' (String.◌∷◌ c s)) (is_space (code c)) (trim_left s)
      (String.◌∷◌ c s) (λ e l. (space (code c) e, Lacks-trim_left s l)) (λ _ l. l) h

Lacks-trim_right : (s : String) → Lacks b'/' (trim_right s) → Lacks b'/' s
unfolding trim_right
Lacks-trim_right String.[] h = _
Lacks-trim_right (String.◌∷◌ c s) h =
    if_elim (λ t. Lacks b'/' t → Lacks b'/' (String.◌∷◌ c s))
      (is_space (code c) && trim_right s == "") "" (String.◌∷◌ c (trim_right s))
      (λ e _.
        let (white, blank) = and_split (is_space (code c)) (trim_right s == "") e in
        let rest = sym ((string_eq.same_iff (trim_right s) "").0 blank) in
        (space (code c) white, Lacks-trim_right s (subst (Lacks b'/') rest _)))
      (λ _ l. (l.0, Lacks-trim_right s l.1)) h

-- An accepted name has no slash, not even before it is trimmed.
pub validate_snapshot_name-Lacks :
    (name : String) → validate_snapshot_name name ≡ none → Lacks b'/' name
unfolding trim_space
validate_snapshot_name-Lacks name h = Lacks-trim_left name (
    Lacks-trim_right (trim_left name)
      (slashless (codes (trim_space name)) ((validate_snapshot_name_iff name).0 h)))
  where
    each : (cs : List ℕ) → All (λ d. is_name_character d ≡ true) cs → All (λ d. d ≢ b'/') cs
    each = All-map (λ d p. (plain d p).1)

    slashless : (cs : List ℕ) → IsName cs → All (λ d. d ≢ b'/') cs
    slashless [] h = absurd h
    slashless (c ∷ cs) (a, b, _) = ((plain c (alphanumeric c a).0).1, each cs b)
