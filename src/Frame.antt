-- ===== src/Frame.antt =====
-- rfrp_proto/src/frame_types.rs: the frames and their constructors, and what serde's
-- `#[serde(skip, default)]` on the cached addresses of base_types.rs leaves of a frame.
use rfrp.Base.{ℕ, Bool, false, List, [], bytes_eq}
use rfrp.Base.Bytes.{codes}
use rfrp.Config.{Text, ClientInfo, ControlInfo, DataInfo, RegisterResponse}

-- `RfrpFrame::Data` is `data_frame`.
pub data RfrpFrame : Type 0 where
  register : ClientInfo → RfrpFrame
  register_ack : RegisterResponse → RfrpFrame
  control : ControlInfo → RfrpFrame
  data_frame : DataInfo → RfrpFrame

unfoldable pub new_data_frame : List ℕ → ℕ → ℕ → RfrpFrame
new_data_frame bytes proxy_id conn_id =
    data_frame (record { conn_id = conn_id; proxy_id = proxy_id; payload = bytes })

unfoldable pub new_reg_ack_frame : ClientInfo → Bool → ℕ → RfrpFrame
new_reg_ack_frame client_info success proxy_id =
    register_ack (record { client_info = client_info; success = success; proxy_id = proxy_id })

abbrev pub ping_command : Text
ping_command = codes "ping"

abbrev pub pong_command : Text
pong_command = codes "pong"

unfoldable pub new_ping_frame : RfrpFrame
new_ping_frame = control (record { command = ping_command; args = [] })

unfoldable pub new_pong_frame : RfrpFrame
new_pong_frame = control (record { command = pong_command; args = [] })

unfoldable pub is_ping : RfrpFrame → Bool
is_ping (control c) = bytes_eq c.command ping_command
is_ping _ = false

unfoldable pub is_pong : RfrpFrame → Bool
is_pong (control c) = bytes_eq c.command pong_command
is_pong _ = false

-- A skipped field is not written, and reads back as `String::default()`.
unfoldable pub skip_addr : ClientInfo → ClientInfo
skip_addr c = record c { addr = [] }

-- The frame that the other side reads.
unfoldable pub skip_fields : RfrpFrame → RfrpFrame
unfolding skip_addr
skip_fields (register c) = register (skip_addr c)
skip_fields (register_ack r) = register_ack (record r { client_info = skip_addr r.client_info })
skip_fields (control c) = control c
skip_fields (data_frame d) = data_frame d
