-- ===== src/Config.antt =====
-- rfrp_config/src/config_info/base_types.rs and base_info_ops.rs: the configuration, the payloads
-- of the frames, their getters and `ConfigInfo::init`. A text is the list of its UTF-8 bytes.
pub mod Decimal
pub mod Ip
pub mod Address
pub mod Validate
pub mod Verdict
pub mod Reports
use rfrp.Base.{ℕ, Bool, List, [], ◌∷◌, ◌++◌, map}
use rfrp.Config.Decimal.{show}

abbrev pub Text : Type 0
Text = List ℕ

pub data RunningMode : Type 0 where
  server client unknown : RunningMode

pub record ControlInfo : Type 0 where
  pub command : Text
  pub args : List Text

-- The field `data` of the source is `payload` here.
pub record DataInfo : Type 0 where
  pub conn_id : ℕ  -- u64
  pub proxy_id : ℕ  -- u32
  pub payload : List ℕ

pub record ServerInfo : Type 0 where
  pub server_ip : Text
  pub server_port : ℕ  -- u16
  pub auth_token : Text
  pub addr : Text

pub record ClientInfo : Type 0 where
  pub name : Text
  pub bind_port : ℕ  -- u16
  pub proxy_ip : Text
  pub proxy_port : ℕ  -- u16
  pub proxy_con_type : Text
  pub addr : Text

pub record ConfigInfo : Type 0 where
  pub running_mode : RunningMode
  pub server_info : ServerInfo
  pub client_proxy : List ClientInfo

pub record RegisterResponse : Type 0 where
  pub client_info : ClientInfo
  pub success : Bool
  pub proxy_id : ℕ  -- u32

-- `BaseInfoGetter`, with its two implementations as instances.
pub record BaseInfoGetter (A : Type 0) : Type 0 where
  pub get_ip : A → Text
  pub get_port : A → ℕ
  pub get_addr : A → Text

instance abbrev pub client_getter : BaseInfoGetter ClientInfo
client_getter = record {
  get_ip = λ c. c.proxy_ip;
  get_port = λ c. c.proxy_port;
  get_addr = λ c. c.addr;
}

instance abbrev pub server_getter : BaseInfoGetter ServerInfo
server_getter = record {
  get_ip = λ s. s.server_ip;
  get_port = λ s. s.server_port;
  get_addr = λ s. s.addr;
}

module _ {A : Type 0} ⦃g : BaseInfoGetter A⦄ where
  abbrev pub get_ip : A → Text
  get_ip = g.get_ip

  abbrev pub get_port : A → ℕ
  get_port = g.get_port

  abbrev pub get_addr : A → Text
  get_addr = g.get_addr

-- The getters of the fields.
abbrev pub get_running_mode : ConfigInfo → RunningMode
get_running_mode c = c.running_mode

abbrev pub get_server : ConfigInfo → ServerInfo
get_server c = c.server_info

abbrev pub get_client_proxy : ConfigInfo → List ClientInfo
get_client_proxy c = c.client_proxy

abbrev pub get_bind_port : ClientInfo → ℕ
get_bind_port c = c.bind_port

abbrev pub get_auth_token : ServerInfo → Text
get_auth_token s = s.auth_token

-- `format!("{}:{}", ip, port)`
unfoldable pub format_addr : Text → ℕ → Text
format_addr ip port = ip ++ (b':' ∷ show port)

unfoldable pub init_client : ClientInfo → ClientInfo
init_client c = record c { addr = format_addr c.proxy_ip c.proxy_port }

unfoldable pub init : ConfigInfo → ConfigInfo
unfolding init_client
init c = record c {
  server_info = record c.server_info {
    addr = format_addr c.server_info.server_ip c.server_info.server_port;
  };
  client_proxy = map init_client c.client_proxy;
}
