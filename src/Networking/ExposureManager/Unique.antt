-- ===== src/Networking/ExposureManager/Unique.antt =====
-- No two exposures get the traffic of one port of one gateway: the invariant of ExposureManager.
use mystic_hypervisor.Hosts.{protocol_eq}
use mystic_hypervisor.Networking.AllocatorEngine.Meaning.{IsPort, Overlap}
use mystic_hypervisor.Networking.Exposure.{NetworkExposure}
use mystic_hypervisor.Networking.ExposureManager.Validation.{Clash}
use mystic_hypervisor.Prelude.Int.{pos, int_eq}
use mystic_hypervisor.Prelude.Maps.{
  GoMap, get, put, delete, get-put_cases, get-delete_cases, get-map,
}
use mystic_hypervisor.Prelude.{
  ◌≡◌, ◌≢◌, sym, ap, ◌∙◌, subst, some, String, arith, Option-cases, inl, inr, string_eq, map,
}

-- The public port can be exposed.
abbrev pub HasPublicPort : NetworkExposure → Type 0
HasPublicPort x = IsPort x.public_port × (x.public_port ≢ pos 22) × (x.public_port ≢ pos 8443)

-- Every exposure is filed under its id and has a port that can be exposed, and no two of them clash.
pub record Unique (m : GoMap String NetworkExposure) : Type 0 where
  pub filed : (k : String) (x : NetworkExposure) → get k m ≡ some x → (x.id ≡ k) × HasPublicPort x
  pub apart :
      (k j : String) (x y : NetworkExposure)
      → get k m ≡ some x
      → get j m ≡ some y
      → k ≢ j
      → ¬ Clash x y

Clash-sym : (x y : NetworkExposure) → Clash x y → Clash y x
Clash-sym x y (g, p, o) = (
  sym g,
  sym p,
  elim o [ inl q ↦ inr (inl q) | inr (inl q) ↦ inl q | inr (inr q) ↦ inr (inr (sym q)) ],
)

-- An exposure that clashes with none under another key can be put into the map.
pub put-Unique :
    (k : String) (x : NetworkExposure) (m : GoMap String NetworkExposure)
    → Unique m
    → x.id ≡ k
    → HasPublicPort x
    → ((j : String) (y : NetworkExposure) → get j m ≡ some y → j ≢ k → ¬ Clash y x)
    → Unique (put k x m)
put-Unique k x m u e p none_clash = record {
  filed = λ j y g. elim (get-put_cases k j x y m g) [
    | inl (q, r) ↦
        (ground (arith, e, q, ap (λ (z : NetworkExposure). z.id) r), subst HasPublicPort r p)
    | inr (_, q) ↦ u.filed j y q
  ];
  apart = λ i j y z g h ne. elim (get-put_cases k i x y m g) [
    | inl (q, r) ↦ elim (get-put_cases k j x z m h) [
      | inl (s, _) ↦ absurd (ne (sym q ∙ s))
      | inr (s, t) ↦ λ c. none_clash j z t s (Clash-sym x z (subst (λ w. Clash w z) (sym r) c))
    ]
    | inr (q, r) ↦ elim (get-put_cases k j x z m h) [
      | inl (s, t) ↦ λ c. none_clash i y r q (subst (λ w. Clash y w) (sym t) c)
      | inr (s, t) ↦ u.apart i j y z r t ne
    ]
  ];
}

pub delete-Unique : (k : String) (m : GoMap String NetworkExposure) → Unique m → Unique (delete k m)
delete-Unique k m u = record {
  filed = λ j y g. u.filed j y (get-delete_cases k j y m g).1;
  apart = λ i j y z g h ne.
      u.apart i j y z (get-delete_cases k i y m g).1 (get-delete_cases k j z m h).1 ne;
}

-- What stays of an exposure that is put back under its key.
pub record SameEndpoint (x y : NetworkExposure) : Type 0 where
  pub id : x.id ≡ y.id
  pub gateway_id : x.gateway_id ≡ y.gateway_id
  pub public_port : x.public_port ≡ y.public_port
  pub internal_port : x.internal_port ≡ y.internal_port
  pub protocol : x.protocol ≡ y.protocol

SameEndpoint-Clash : (w x y : NetworkExposure) → SameEndpoint x y → Clash w y → Clash w x
SameEndpoint-Clash w x y s (g, p, o) = (
  g ∙ sym s.gateway_id,
  p ∙ sym s.public_port,
  subst (λ q. Overlap w.protocol q) (sym s.protocol) o,
)

SameEndpoint-HasPublicPort :
    (x y : NetworkExposure) → SameEndpoint x y → HasPublicPort x → HasPublicPort y
SameEndpoint-HasPublicPort x y s h =
    subst (λ q. IsPort q × (q ≢ pos 22) × (q ≢ pos 8443)) s.public_port h

pub replace-Unique :
    (k : String) (x y : NetworkExposure) (m : GoMap String NetworkExposure)
    → Unique m
    → get k m ≡ some x
    → SameEndpoint x y
    → Unique (put k y m)
replace-Unique k x y m u h s =
    let (f, p) = u.filed k x h in
    put-Unique k y m u (sym s.id ∙ f) (SameEndpoint-HasPublicPort x y s p)
      (λ j w g ne c. u.apart j k w x g h ne (SameEndpoint-Clash w x y s c))

pub map-Unique :
    (f : NetworkExposure → NetworkExposure) (m : GoMap String NetworkExposure)
    → ((x : NetworkExposure) → SameEndpoint x (f x))
    → Unique m
    → Unique (map (λ e. (e.0, f e.1)) m)
map-Unique f m same u = record {
  filed = λ k y g.
      let (x, h, e) = back k y g in
      let (a, p) = u.filed k x h in
      let s = subst (SameEndpoint x) e (same x) in
      (sym s.id ∙ a, SameEndpoint-HasPublicPort x y s p);
  apart = λ i j y z g h ne c.
      let (x, hx, ex) = back i y g in
      let (w, hw, ew) = back j z h in
      let s = subst (SameEndpoint x) ex (same x) in
      let t = subst (SameEndpoint w) ew (same w) in
      u.apart i j x w hx hw ne
        (Clash-sym w x (SameEndpoint-Clash w x y s (Clash-sym y w (SameEndpoint-Clash y w z t c))));
}
  where
    back :
        (k : String) (y : NetworkExposure)
        → get k (map (λ e. (e.0, f e.1)) m) ≡ some y
        → (x : NetworkExposure) × (get k m ≡ some x) × (f x ≡ y)
    back k y g = elim (Option-cases (get k m)) [
      | inl e ↦ absurd (cc (get-map f k m, e, g))
      | inr (x, e) ↦ (x, e, ground (arith, get-map f k m, e, g))
    ]
