-- ===== src/Providers/Registry.antt =====
-- backend/internal/providers/interfaces/provider.go and capabilities.go: the global registry of
-- providers, of any type, and the sets of capabilities.
use mystic_hypervisor.Prelude.Maps.{GoMap, get, put}
use mystic_hypervisor.Prelude.{
  Option, none, some, String, Bool, true, false, ◌==◌, string_eq, List, [], ◌∷◌, map, if◌then◌else◌,
}

-- A capability is a text, and a set maps it to whether it is supported.
abbrev pub CapabilitySet : Type 0
CapabilitySet = GoMap String Bool

unfoldable pub new_capability_set : List String → CapabilitySet
new_capability_set [] = []
new_capability_set (c ∷ cs) = put c true (new_capability_set cs)

-- Has of a set, and of the nil map.
unfoldable pub has : Option CapabilitySet → String → Bool
has none c = false
has (some set) c = elim (get c set) [ none ↦ false | some supported ↦ supported ]

-- List and Slice, which differ in the type of the elements only.
unfoldable pub slice : CapabilitySet → List String
slice [] = []
slice ((c, supported) ∷ set) = let rest = slice set in if supported then c ∷ rest else rest

pub data RegistryError : Type 0 where
  empty_name nil_provider already_registered not_found : RegistryError

module _ {P : Type 0} where
  -- RegisterProvider; `none` is the nil provider, and the return without an error.
  unfoldable pub register_provider :
      String → Option P → GoMap String P → Option RegistryError × GoMap String P
  register_provider name none providers =
      (some (if name == "" then empty_name else nil_provider), providers)
  register_provider name (some p) providers =
      if name == "" then (some empty_name, providers) else elim (get name providers) [
        | some _ ↦ (some already_registered, providers)
        | none ↦ (none, put name p providers)
      ]

  -- GetProvider; `none` is the error.
  unfoldable pub get_provider : String → GoMap String P → Option P
  get_provider name providers = get name providers

  unfoldable pub list_providers : (P → CapabilitySet) → GoMap String P → GoMap String CapabilitySet
  list_providers capabilities providers = map (λ e. (e.0, capabilities e.1)) providers
