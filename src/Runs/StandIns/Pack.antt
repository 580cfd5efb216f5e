-- ===== src/Runs/StandIns/Pack.antt =====
-- A serialisation of frames: texts behind their lengths, and a number for each kind of frame.
use mathlib.Core.List.{append-nil}
use rfrp.Base.{
  some_inj, ◌∙◌, ℕ, zero, suc, ◌≡◌, refl, ap, Bool, true, false, List, [], ◌∷◌, ◌++◌, Option, none,
  some, ◌==◌, length, take, drop, take-append, drop-append,
}
use rfrp.Config.{Text, ClientInfo}
use rfrp.Frame.{RfrpFrame, register, register_ack, control, data_frame, skip_fields, skip_addr}
use rfrp.Codec.{MessagePack}
use rfrp.Codec.Laws.{IsMessagePack}

abbrev put_text : Text → List ℕ → List ℕ
put_text t rest = length t ∷ (t ++ rest)

abbrev get_text : List ℕ → Text × List ℕ
get_text [] = ([], [])
get_text (n ∷ rest) = (take n rest, drop n rest)

get_text-put_text : (t : Text) (rest : List ℕ) → get_text (put_text t rest) ≡ (t, rest)
get_text-put_text t rest =
    rw (take-append (length t) t rest refl, drop-append (length t) t rest refl)

abbrev put_texts : List Text → List ℕ → List ℕ
put_texts [] rest = rest
put_texts (t ∷ ts) rest = put_text t (put_texts ts rest)

abbrev get_texts : ℕ → List ℕ → List Text
get_texts zero l = []
get_texts (suc n) l = (get_text l).0 ∷ get_texts n (get_text l).1

get_texts-put_texts : (ts : List Text) → get_texts (length ts) (put_texts ts []) ≡ ts
get_texts-put_texts [] = refl
get_texts-put_texts (t ∷ ts) =
    rw
      (
        take-append (length t) t (put_texts ts []) refl,
        drop-append (length t) t (put_texts ts []) refl,
      )
      (ap (λ l. t ∷ l) (get_texts-put_texts ts))

abbrev put_client : ClientInfo → List ℕ
put_client c =
    c.bind_port
    ∷ c.proxy_port
    ∷ put_text c.name (put_text c.proxy_ip (put_text c.proxy_con_type []))

abbrev get_client : List ℕ → ClientInfo
get_client (b ∷ p ∷ l) =
    let (name, l') = get_text l in
    let (ip, l'') = get_text l' in
    let (con, _) = get_text l'' in
    record {
      name = name;
      bind_port = b;
      proxy_ip = ip;
      proxy_port = p;
      proxy_con_type = con;
      addr = [];
    }
get_client _ = record {
  name = [];
  bind_port = 0;
  proxy_ip = [];
  proxy_port = 0;
  proxy_con_type = [];
  addr = [];
}

get_client-put_client : (c : ClientInfo) → get_client (put_client c) ≡ skip_addr c
unfolding skip_addr
get_client-put_client c = rw (
  take-append (length c.name) c.name _ refl,
  drop-append (length c.name) c.name _ refl,
  take-append (length c.proxy_ip) c.proxy_ip _ refl,
  drop-append (length c.proxy_ip) c.proxy_ip _ refl,
  take-append (length c.proxy_con_type) c.proxy_con_type _ refl,
)

abbrev put_bool : Bool → ℕ
put_bool true = 1
put_bool false = 0

get_bool : (b : Bool) → (put_bool b == 1) ≡ b
get_bool true = refl
get_bool false = refl

abbrev put_frame : RfrpFrame → List ℕ
put_frame (register c) = 0 ∷ put_client c
put_frame (register_ack r) = 1 ∷ put_bool r.success ∷ r.proxy_id ∷ put_client r.client_info
put_frame (control c) = 2 ∷ length c.args ∷ put_text c.command (put_texts c.args [])
put_frame (data_frame d) = 3 ∷ d.conn_id ∷ d.proxy_id ∷ d.payload

abbrev get_frame : List ℕ → Option RfrpFrame
get_frame [] = none
get_frame (zero ∷ l) = some (register (get_client l))
get_frame (suc zero ∷ b ∷ id ∷ l) =
    some (register_ack (record { client_info = get_client l; success = b == 1; proxy_id = id }))
get_frame (suc (suc zero) ∷ n ∷ l) =
    let (command, l') = get_text l in
    some (control (record { command = command; args = get_texts n l' }))
get_frame (suc (suc (suc zero)) ∷ c ∷ p ∷ l) =
    some (data_frame (record { conn_id = c; proxy_id = p; payload = l }))
get_frame _ = none

abbrev pub pack : MessagePack
pack = record {
  to_vec = λ f. some (put_frame f);
  write = λ f. some (put_frame f ∷ []);
  from_slice = get_frame;
}

get_frame-put_frame : (f : RfrpFrame) → get_frame (put_frame f) ≡ some (skip_fields f)
unfolding skip_fields
get_frame-put_frame (register c) = ap (λ x. some (register x)) (get_client-put_client c)
get_frame-put_frame (register_ack r) = λ i. some (
    register_ack (record {
      client_info = get_client-put_client r.client_info i;
      success = get_bool r.success i;
      proxy_id = r.proxy_id;
    }))
get_frame-put_frame (control c) = rw (
  take-append (length c.command) c.command (put_texts c.args []) refl,
  drop-append (length c.command) c.command (put_texts c.args []) refl,
  get_texts-put_texts c.args,
)
get_frame-put_frame (data_frame d) = refl

pub pack-IsMessagePack : IsMessagePack pack
pack-IsMessagePack = record {
  writes = λ f. (put_frame f, refl, get_frame-put_frame f);
  in_pieces = λ f bytes h. (put_frame f ∷ [], refl, append-nil (put_frame f) ∙ some_inj h);
}
