-- ===== src/Snapshots/Name.antt =====
-- backend/internal/snapshots/manager.go: the check of a snapshot's name, and the key that its record has.
pub mod Keys
pub mod Syntax
use Prim.Native.Char.{Char, code}
use Prim.Native.String.{◌++◌}
use text.Mathlib.TextLemmas.{nil-append, cons-append, append-nil}
use mystic_hypervisor.Prelude.{
  ℕ, zero, suc, ◌≤◌, ◌<◌, ◌+◌, ◌≡◌, ◌≢◌, ◌↔◌, refl, ap, sym, ◌∙◌, Option, none, some, String, Bool,
  true, false, not, ◌==◌, ◌||◌, ◌&&◌, nat_eq, string_eq, List, [], ◌∷◌, All, length, ltb, leb,
  arith, if◌then◌else◌, Bool-cases, inl, inr,
}
use mystic_hypervisor.Text.Parts.{Lacks}
use mystic_hypervisor.Text.{codes, sprint, trim_space, trim_left, trim_right, is_space}

-- Why a name is refused, in the order of the checks.
pub data NameFault : Type 0 where
  empty hyphen too_long invalid_characters : NameFault

-- [a-zA-Z0-9]
unfoldable pub is_alphanumeric : ℕ → Bool
is_alphanumeric c =
    (leb b'a' c && leb c b'z') || (leb b'A' c && leb c b'Z') || (leb b'0' c && leb c b'9')

-- [a-zA-Z0-9_.-]
unfoldable pub is_name_character : ℕ → Bool
is_name_character c = is_alphanumeric c || c == b'_' || c == b'.' || c == b'-'

-- [a-zA-Z0-9_.-]{0,n}$
unfoldable pub matches_rest : ℕ → List ℕ → Bool
matches_rest n [] = true
matches_rest zero (c ∷ cs) = false
matches_rest (suc n) (c ∷ cs) = is_name_character c && matches_rest n cs

-- validSnapshotNameRegex
unfoldable pub matches_name : List ℕ → Bool
matches_name [] = false
matches_name (c ∷ cs) = is_alphanumeric c && matches_rest 62 cs

-- How many bytes a code point takes in UTF-8.
unfoldable pub width : ℕ → ℕ
width c = if ltb c 0x80 then 1 else if ltb c 0x800 then 2 else if ltb c 0x10000 then 3 else 4

-- len of a text
unfoldable pub byte_length : List ℕ → ℕ
byte_length [] = 0
byte_length (c ∷ cs) = width c + byte_length cs

abbrev pub starts_with : ℕ → List ℕ → Bool
starts_with c [] = false
starts_with c (d ∷ ds) = d == c

-- The checks of ValidateSnapshotName on the trimmed name.
unfoldable pub name_fault : String → Option NameFault
name_fault trimmed =
    if trimmed == ""
    then some empty
    else if starts_with b'-' (codes trimmed)
    then some hyphen
    else if ltb 64 (byte_length (codes trimmed))
    then some too_long
    else if not (matches_name (codes trimmed))
    then some invalid_characters
    else none

unfoldable pub validate_snapshot_name : String → Option NameFault
validate_snapshot_name name = name_fault (trim_space name)

-- `%s/%s`
unfoldable pub make_snapshot_id : String → String → String
make_snapshot_id workload_id name = sprint (workload_id ∷ "/" ∷ name ∷ [])
