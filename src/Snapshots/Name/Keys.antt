-- ===== src/Snapshots/Name/Keys.antt =====
-- The key of a snapshot's record tells the workload and the name of the snapshot.
use Prim.Native.Char.{Char}
use Prim.Native.String.{◌++◌}
use text.Mathlib.TextLemmas.{nil-append, cons-append, append-nil}
use mystic_hypervisor.Prelude.{◌≡◌, refl, subst, ap, sym, ◌∙◌, String, nat_eq, string_eq}
use mystic_hypervisor.Snapshots.Name.{make_snapshot_id}
use mystic_hypervisor.Text.Parts.{Lacks}
use mystic_hypervisor.Text.{sprint}

-- A text, a slash, and a text.
abbrev joined : String → String → String
joined w n = w ++ String.◌∷◌ "/" n

make_snapshot_id_lem : (w n : String) → make_snapshot_id w n ≡ joined w n
unfolding make_snapshot_id sprint
make_snapshot_id_lem w n =
    ap (λ s. w ++ s)
      (cons-append "/" "" (n ++ "") ∙ ap (String.◌∷◌ "/") (nil-append (n ++ "") ∙ append-nil n))

head_of : Char → String → Char
head_of c String.[] = c
head_of c (String.◌∷◌ d s) = d

tail_of : String → String
tail_of String.[] = ""
tail_of (String.◌∷◌ d s) = s

cons_injective : {c d : Char} {s t : String} → String.◌∷◌ c s ≡ String.◌∷◌ d t → (c ≡ d) × (s ≡ t)
unfolding head_of tail_of
cons_injective {c = c} e = (ap (head_of c) e, ap tail_of e)

not-Lacks : (s t : String) → Lacks b'/' (joined s t) → ⊥
not-Lacks String.[] t h = (subst (Lacks b'/') (nil-append _) h).0 refl
not-Lacks (String.◌∷◌ c s) t h = not-Lacks s t (subst (Lacks b'/') (cons-append c s _) h).1

last_part :
    (v w n k : String) → Lacks b'/' n → Lacks b'/' k → joined v n ≡ joined w k → (v ≡ w) × (n ≡ k)
last_part String.[] String.[] n k ln lk e =
    (refl, (cons_injective (sym (nil-append _) ∙ e ∙ nil-append _)).1)
last_part String.[] (String.◌∷◌ d w) n k ln lk e =
    let (_, f) = cons_injective (sym (nil-append _) ∙ e ∙ cons-append d w _) in
    absurd (not-Lacks w k (subst (Lacks b'/') f ln))
last_part (String.◌∷◌ c v) String.[] n k ln lk e =
    let (_, f) = cons_injective (sym (nil-append _) ∙ sym e ∙ cons-append c v _) in
    absurd (not-Lacks v n (subst (Lacks b'/') f lk))
last_part (String.◌∷◌ c v) (String.◌∷◌ d w) n k ln lk e =
    let (a, f) = cons_injective (sym (cons-append c v _) ∙ e ∙ cons-append d w _) in
    let (g, h) = last_part v w n k ln lk f in (cc (a, g), h)

-- Two snapshots whose names have no slash have one key only if they are the same snapshot of the same
-- workload, whatever the workloads' identities are.
pub make_snapshot_id_injective :
    (v n w k : String)
    → Lacks b'/' n
    → Lacks b'/' k
    → make_snapshot_id v n ≡ make_snapshot_id w k
    → (v ≡ w) × (n ≡ k)
make_snapshot_id_injective v n w k ln lk e =
    last_part v w n k ln lk (sym (make_snapshot_id_lem v n) ∙ e ∙ make_snapshot_id_lem w k)
