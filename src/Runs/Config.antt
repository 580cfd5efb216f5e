-- ===== src/Runs/Config.antt =====
-- Small configurations, and the theorems on them.
use rfrp.Base.{◌≡◌, refl, List, [], ◌∷◌, some, get_elem?}
use rfrp.Base.Bytes.{codes}
use rfrp.Base.Result.{ok, err}
use mathlib.Core.Logic.{◌↔◌}
use rfrp.Config.{Text, ConfigInfo, ClientInfo, RunningMode, init, format_addr}
use rfrp.Config.Decimal.{show}
use rfrp.Config.Validate.{
  EntryError, no_usable_entries, proxy_ip_empty, proxy_ip_invalid, validate, validate_clients,
  check_entries, check_entry,
}
use rfrp.Config.Ip.{is_ipv4, read_octets, read_octet, is_ipv6, read_group}
use rfrp.Config.Reports.{validate-reports}
use rfrp.Config.Verdict.{IsUsable, validate-accepts}

abbrev pub entry : Text → ClientInfo
entry ip = record {
  name = codes "ssh";
  bind_port = 22001;
  proxy_ip = ip;
  proxy_port = 22;
  proxy_con_type = codes "tcp";
  addr = [];
}

abbrev pub sample : RunningMode → List ClientInfo → ConfigInfo
sample mode entries = record {
  running_mode = mode;
  server_info = record {
    server_ip = codes "::1";
    server_port = 11000;
    auth_token = codes "secret";
    addr = [];
  };
  client_proxy = entries;
}

abbrev two_entries : List ClientInfo
two_entries = entry (codes "10.0.0.300") ∷ entry (codes "127.0.0.1") ∷ []

abbrev bad_entries : List ClientInfo
bad_entries = entry (codes "10.0.0.300") ∷ entry [] ∷ []

addr_of_server : (init (sample RunningMode.client two_entries)).server_info.addr ≡ codes "::1:11000"
unfolding init format_addr show
addr_of_server = refl

one_usable : validate (sample RunningMode.client two_entries) ≡ ok tt
unfolding validate check_entries check_entry is_ipv4 read_octets read_octet is_ipv6 read_group
one_usable = refl

none_usable :
    validate_clients bad_entries
    ≡ err (no_usable_entries (proxy_ip_invalid 0 (codes "10.0.0.300") ∷ proxy_ip_empty 1 ∷ []))
unfolding validate_clients check_entries check_entry is_ipv4 read_octets read_octet is_ipv6
    read_group
none_usable = refl

validate-accepts_example :
    (validate (sample RunningMode.client two_entries) ≡ ok tt)
    ↔ IsUsable (sample RunningMode.client two_entries)
validate-accepts_example = validate-accepts (sample RunningMode.client two_entries)

validate-reports_example :
    (x : EntryError) × (check_entry 1 (entry []) ≡ some x)
    × (get_elem? (proxy_ip_invalid 0 (codes "10.0.0.300") ∷ proxy_ip_empty 1 ∷ []) 1 ≡ some x)
validate-reports_example =
    validate-reports bad_entries (proxy_ip_invalid 0 (codes "10.0.0.300") ∷ proxy_ip_empty 1 ∷ [])
      none_usable 1 (entry []) refl
