-- ===== src/Providers/IncusProxy/Laws.antt =====
-- What the proxy driver relies on in Incus, and the devices that its commands make.
use mystic_hypervisor.Networking.Exposure.{NetworkExposure}
use mystic_hypervisor.Prelude.Maps.{GoMap, get, put, get-put}
use mystic_hypervisor.Prelude.{
  ◌≡◌, refl, ap, ◌∙◌, Option, none, some, String, Bool, true, ◌==◌, ◌&&◌, ◌||◌, string_eq, ==_refl,
  [], ◌∷◌,
}
use mystic_hypervisor.Providers.IncusProxy.{
  Device, Incus, devices, done, add_proxy, set_device, expected_connect, expected_listen, field,
  forwards, address,
}

-- A device with other addresses and with NAT.
abbrev pub readdressed : String → String → Device → Device
readdressed listen connect dev = put "nat" "true" (put "connect" connect (put "listen" listen dev))

-- What Incus promises of a command that it says is done: a query shows it.
pub record Obedient {S : Type 0} (incus : Incus S) : Type 0 where
  pub adds :
      (inst device listen connect : String) (s t : S)
      → incus.execute (add_proxy inst device listen connect) s ≡ (done, t)
      → (ds : GoMap String Device) × (incus.query inst t ≡ devices ds)
        × (get device ds ≡ some (readdressed listen connect (("type", "proxy") ∷ [])))
  pub sets :
      (inst device listen connect : String) (s t : S) (ds : GoMap String Device) (dev : Device)
      → incus.query inst s ≡ devices ds
      → get device ds ≡ some dev
      → incus.execute (set_device inst device listen connect) s ≡ (done, t)
      → (es : GoMap String Device) × (incus.query inst t ≡ devices es)
        × (get device es ≡ some (readdressed listen connect dev))

-- A device that is a proxy, or does not say what it is.
abbrev pub IsProxy : Device → Type 0
IsProxy dev = (field "type" dev == "" || field "type" dev == "proxy") ≡ true

module _ (listen connect : String) (dev : Device) where
  get_type : get "type" (readdressed listen connect dev) ≡ get "type" dev
  get_type =
      get-put "nat" "type" "true" _
      ∙ get-put "connect" "type" connect (put "listen" listen dev)
      ∙ get-put "listen" "type" listen dev

  get_listen : get "listen" (readdressed listen connect dev) ≡ some listen
  get_listen =
      get-put "nat" "listen" "true" _
      ∙ get-put "connect" "listen" connect (put "listen" listen dev)
      ∙ get-put "listen" "listen" listen dev

  get_connect : get "connect" (readdressed listen connect dev) ≡ some connect
  get_connect =
      get-put "nat" "connect" "true" _
      ∙ get-put "connect" "connect" connect (put "listen" listen dev)

-- `forwards` of the three texts that it reads.
abbrev agrees : NetworkExposure → String → String → String → Bool
agrees exp type listen connect =
    (type == "" || type == "proxy")
    && (listen == expected_listen exp || listen == address "" exp.public_port)
    && connect == expected_connect exp

agrees_lem :
    (exp : NetworkExposure) (type : String)
    → (type == "" || type == "proxy") ≡ true
    → agrees exp type (expected_listen exp) (expected_connect exp) ≡ true
agrees_lem exp type proxy =
    rw (proxy, ==_refl (expected_listen exp), ==_refl (expected_connect exp)) refl

pub readdressed-forwards :
    (exp : NetworkExposure) (dev : Device)
    → IsProxy dev
    → forwards exp (readdressed (expected_listen exp) (expected_connect exp) dev) ≡ true
unfolding forwards
readdressed-forwards exp dev proxy =
    let l = expected_listen exp in
    let c = expected_connect exp in
    let new = readdressed l c dev in
    let text : Option String → String = λ o. elim o [ none ↦ "" | some v ↦ v ] in
    ap (λ x. agrees exp (text x) (field "listen" new) (field "connect" new)) (get_type l c dev)
    ∙ ap (λ x. agrees exp (field "type" dev) (text x) (field "connect" new)) (get_listen l c dev)
    ∙ ap (λ x. agrees exp (field "type" dev) l (text x)) (get_connect l c dev)
    ∙ agrees_lem exp (field "type" dev) proxy
