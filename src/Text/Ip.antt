-- ===== src/Text/Ip.antt =====
-- net.ParseIP, which the code calls to ask whether a text is an address: the grammar of
-- netip.ParseAddr without a zone, over the code points of the text.
use mystic_hypervisor.Text.{codes}
use mystic_hypervisor.Prelude.{
  ℕ, zero, suc, ◌+◌, ◌-◌, ◌*◌, String, Bool, true, false, not, ◌&&◌, ◌||◌, List, [], ◌∷◌, ltb, leb,
  ◌==◌, nat_eq, if◌then◌else◌,
}

abbrev is_digit : ℕ → Bool
is_digit c = leb b'0' c && leb c b'9'

abbrev is_hex : ℕ → Bool
is_hex c = is_digit c || (leb b'a' c && leb c b'f') || (leb b'A' c && leb c b'F')

-- The loop of parseIPv4Fields: `value` and `digits` of the current field, the fields before it, and
-- whether the last character was a dot (or there was none).
fields_v4 : List ℕ → ℕ → ℕ → ℕ → Bool → Bool
fields_v4 [] value digits fields after_dot = fields == 3 && not after_dot
fields_v4 (c ∷ s) value digits fields after_dot =
    let v = value * 10 + (c - b'0') in
    let digit = fields_v4 s v (suc digits) fields false in
    let dot = fields_v4 s 0 0 (suc fields) true in
    if is_digit c
    then (if (digits == 1 && value == 0) || ltb 255 v then false else digit)
    else if c == b'.'
    then (if after_dot || fields == 3 then false else dot)
    else false

abbrev is_v4 : List ℕ → Bool
is_v4 s = fields_v4 s 0 0 0 true

-- The digits of one group of hexadecimals: how many there are, and what follows them.
group : ℕ → List ℕ → ℕ × List ℕ
group n [] = (n, [])
group n (c ∷ s) = let rest = group (suc n) s in if is_hex c then rest else (n, c ∷ s)

-- The end of parseIPv6: `bytes` of 16 are read; an ellipsis stands for at least one group.
abbrev complete : ℕ → Bool → Bool
complete bytes ellipsis = if bytes == 16 then not ellipsis else ellipsis

-- What follows a group in the loop of parseIPv6. `again` is the next round.
after_group : (List ℕ → Bool → Bool) → ℕ → List ℕ → Bool → Bool
after_group again bytes [] ellipsis = complete bytes ellipsis
after_group again bytes (c ∷ []) ellipsis = false
after_group again bytes (c ∷ d ∷ s) ellipsis =
    if not (c == b':')
    then false
    else if d == b':'
    then (if ellipsis then false else last_ellipsis s)
    else again (d ∷ s) ellipsis
  where
    last_ellipsis : List ℕ → Bool
    last_ellipsis [] = complete bytes true
    last_ellipsis (x ∷ xs) = again (x ∷ xs) true

-- The loop of parseIPv6, which reads two bytes in a round, so at most eight rounds.
groups_v6 : ℕ → ℕ → List ℕ → Bool → Bool
unfolding group after_group fields_v4
groups_v6 zero bytes s ellipsis = false
groups_v6 (suc f) bytes s ellipsis =
    let (digits, rest) = group 0 s in
    let next = after_group (groups_v6 f (bytes + 2)) (bytes + 2) rest ellipsis in
    if digits == 0 || ltb 4 digits
    then false
    else starts_dot rest
        (if (not ellipsis && not (bytes == 12)) || ltb 16 (bytes + 4)
          then false
          else is_v4 s && complete (bytes + 4) ellipsis)
        next
  where
    starts_dot : List ℕ → Bool → Bool → Bool
    starts_dot [] x y = y
    starts_dot (c ∷ r) x y = if c == b'.' then x else y

is_v6 : List ℕ → Bool
unfolding groups_v6
is_v6 (c ∷ d ∷ []) = c == b':' && d == b':'
is_v6 (c ∷ d ∷ e ∷ s) =
    if c == b':' && d == b':'
    then groups_v6 8 0 (e ∷ s) true
    else groups_v6 8 0 (c ∷ d ∷ e ∷ s) false
is_v6 s = false

-- The first `.` or `:` decides which grammar is tried.
dispatch : List ℕ → List ℕ → Bool
unfolding is_v6 fields_v4
dispatch [] s = false
dispatch (c ∷ r) s =
    if c == b'.'
    then is_v4 s
    else if c == b':'
    then is_v6 s
    else if c == b'%'
    then false
    else dispatch r s

-- net.ParseIP(s) != nil
unfoldable pub is_ip : String → Bool
unfolding dispatch
is_ip s = dispatch (codes s) (codes s)
