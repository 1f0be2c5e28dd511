-- ===== src/Providers/Tests.antt =====
-- backend/internal/providers/incus/proxy.go, run on a host whose state is the devices of its instances.
use mystic_hypervisor.Hosts.{ExposureMode, ExposureState, Protocol}
use mystic_hypervisor.Instances.{in_sync}
use mystic_hypervisor.Networking.Exposure.{NetworkExposure}
use mystic_hypervisor.Prelude.Int.{pos}
use mystic_hypervisor.Prelude.Maps.{GoMap, delete, get, put, get-put_self}
use mystic_hypervisor.Prelude.{
  ◌≡◌, refl, sym, ap, ◌∙◌, Option, none, some, String, [], ◌∷◌, string_eq,
}
use mystic_hypervisor.Providers.IncusProxy.Applied.{IsActive, create_exposure-get_exposure}
use mystic_hypervisor.Providers.IncusProxy.Laws.{Obedient, readdressed}
use mystic_hypervisor.Providers.IncusProxy.{
  Command, CommandAnswer, Device, Incus, QueryAnswer, add_proxy, create_exposure, create_on,
  device_name_for_exposure, devices, done, get_exposure, remove_device, resolve_instance_name,
  resolved, set_device,
}
use mystic_hypervisor.Text.{trim_space}

-- A host with one instance.
abbrev Host : Type 0
Host = GoMap String Device

abbrev old_device : String → Host → Device
old_device device ds = elim (get device ds) [ none ↦ [] | some dev ↦ dev ]

abbrev executed : Command → Host → Host
executed (add_proxy inst device listen connect) ds =
    put device (readdressed listen connect (("type", "proxy") ∷ [])) ds
executed (set_device inst device listen connect) ds =
    put device (readdressed listen connect (old_device device ds)) ds
executed (remove_device inst device) ds = delete device ds

abbrev toy : Incus Host
toy = record { query = λ inst ds. devices ds; execute = λ c ds. (done, executed c ds) }

toy-Obedient : Obedient toy
toy-Obedient = record {
  adds = λ inst device listen connect s t e. (
    t,
    refl,
    ap (λ (x : CommandAnswer × Host). get device x.1) (sym e) ∙ get-put_self device _ s,
  );
  sets = λ inst device listen connect s t ds dev q g e. (
    t,
    refl,
    ap (λ (x : CommandAnswer × Host). get device x.1) (sym e)
        ∙ get-put_self device _ s
        ∙ ap
            (λ (o : Option Device).
              some (readdressed listen connect (elim o [ none ↦ [] | some d ↦ d ])))
            (ap (get device) (same q) ∙ g),
  );
}
  where
    same : {s ds : Host} → ◌≡◌ {A = QueryAnswer} (devices s) (devices ds) → s ≡ ds
    same q = cc q

abbrev web_80 : NetworkExposure
web_80 = record {
  id = "exp-1";
  workload_id = "wl-1";
  workload_name = "web";
  gateway_id = "";
  exposure_mode = ExposureMode.nat_forwarded;
  public_ip = "";
  public_port = pos 8080;
  internal_ip = "10.0.0.5";
  internal_port = pos 80;
  protocol = Protocol.tcp;
  desired_state = ExposureState.configured;
  actual_state = ExposureState.configured;
  sync_status = in_sync;
  description = "";
  created_at = none;
  updated_at = none;
  last_sync = none;
}

abbrev left : Host
left = (create_exposure toy (some web_80) []).1

in_web : resolve_instance_name web_80 ≡ resolved "web"
unfolding resolve_instance_name trim_space
in_web = refl

created : create_exposure toy (some web_80) [] ≡ (none, left)
unfolding create_exposure create_on resolve_instance_name trim_space get
created = refl

no_device :
    (ds : Host) (dev : Device)
    → ◌≡◌ {A = QueryAnswer} (devices []) (devices ds)
    → get (device_name_for_exposure web_80.id) ds ≡ some dev
    → ⊥
unfolding get
no_device [] dev q g = cc
no_device (x ∷ ds) dev q g = cc

create_exposure-get_exposure_example :
    IsActive toy toy-Obedient web_80 "web" (get_exposure toy (some web_80) left)
create_exposure-get_exposure_example =
    create_exposure-get_exposure toy toy-Obedient web_80 "web" [] left
      (λ ds dev q g. absurd (no_device ds dev q g)) in_web created
