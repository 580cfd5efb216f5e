-- ===== src/Config/Validate.antt =====
-- rfrp_config/src/config_parser.rs: `ConfigInfo::new` from the text of the file on, `validate` and
-- what it calls. The parser of serde_json is an argument; a panic is `none`; an
-- error is a constructor with what its message shows; logging is left out.
use rfrp.Base.{
  ℕ, ◌+◌, Bool, true, false, ◌||◌, List, [], ◌∷◌, ◌++◌, Option, none, some, ltb, ◌==◌,
  if◌then◌else◌,
}
use rfrp.Base.Result.{Result, ok, err}
use rfrp.Config.Ip.{is_ipv4, is_ipv6}
use rfrp.Config.{
  Text, server, client, unknown, ConfigInfo, ClientInfo, ServerInfo, client_getter, server_getter,
  get_ip, get_port, init, get_running_mode, get_server, get_client_proxy, get_auth_token,
}

pub data EntryError : Type 0 where
  proxy_ip_empty : ℕ → EntryError
  proxy_ip_invalid : ℕ → Text → EntryError
  proxy_port_invalid : ℕ → ℕ → EntryError

pub data ConfigError : Type 0 where
  server_ip_empty : ConfigError
  server_ip_invalid : Text → ConfigError
  server_port_invalid : ℕ → ConfigError
  auth_token_empty : ConfigError
  client_proxy_empty : ConfigError
  no_usable_entries : List EntryError → ConfigError
  mode_unknown : ConfigError

-- `is_empty` of a text or a slice.
abbrev pub is_empty {ℓ} : {A : Type ℓ} → List A → Bool
is_empty [] = true
is_empty (x ∷ xs) = false

unfoldable pub is_valid_port : ℕ → Bool
is_valid_port port = ltb 0 port

-- `from_str` and what follows it in `ConfigInfo::new`: the file's content is read already.
unfoldable pub new : (Text → Option ConfigInfo) → Text → Option ConfigInfo
new from_str content = elim (from_str content) [
  | none ↦ none
  | some parsed ↦ elim (get_running_mode (init parsed)) [ unknown ↦ none | _ ↦ some (init parsed) ]
]

unfoldable pub is_valid_ip : Text → Bool
is_valid_ip ip = is_ipv4 ip || is_ipv6 ip

unfoldable pub validate_server : ServerInfo → Result ConfigError (Unit {0})
unfolding is_valid_ip is_valid_port
validate_server s =
    if is_empty (get_ip s)
    then err server_ip_empty
    else if is_valid_ip (get_ip s)
    then (if is_valid_port (get_port s)
        then (if is_empty (get_auth_token s) then err auth_token_empty else ok tt)
        else err (server_port_invalid (get_port s)))
    else err (server_ip_invalid (get_ip s))

-- The body of the loop for entry `i`: `none` where the entry is counted as valid.
unfoldable pub check_entry : ℕ → ClientInfo → Option EntryError
unfolding is_valid_ip is_valid_port
check_entry i c =
    if is_empty (get_ip c)
    then some (proxy_ip_empty i)
    else if is_valid_ip (get_ip c)
    then (if is_valid_port (get_port c) then none else some (proxy_port_invalid i (get_port c)))
    else some (proxy_ip_invalid i (get_ip c))

-- `for (i, client) in clients.iter().enumerate()`, with `valid_count` and `errors`.
unfoldable pub check_entries : ℕ → List ClientInfo → ℕ → List EntryError → ℕ × List EntryError
check_entries i [] valid_count errors = (valid_count, errors)
check_entries i (c ∷ cs) valid_count errors = elim (check_entry i c) [
  | none ↦ check_entries (i + 1) cs (valid_count + 1) errors
  | some e ↦ check_entries (i + 1) cs valid_count (errors ++ (e ∷ []))
]

unfoldable pub validate_clients : List ClientInfo → Result ConfigError (Unit {0})
validate_clients clients =
    if is_empty clients
    then err client_proxy_empty
    else (let (valid_count, errors) = check_entries 0 clients 0 [] in
        if valid_count == 0 then err (no_usable_entries errors) else ok tt)

unfoldable pub validate : ConfigInfo → Result ConfigError (Unit {0})
unfolding validate_server validate_clients
validate c = elim (get_running_mode c) [
  | server ↦ validate_server (get_server c)
  | client ↦ validate_clients (get_client_proxy c)
  | unknown ↦ err mode_unknown
]
