-- ===== src/Config/Address.antt =====
-- What the cached "ip:port" texts of `init` hold: cut at the last colon they give back ip and port.
use rfrp.Base.{
  ℕ, zero, suc, ◌^◌, ◌<◌, ◌≡◌, refl, ap, List, [], ◌∷◌, ◌++◌, map, Option, none, some, arith, ◌==◌,
  if◌then◌else◌, get_elem?,
}
use rfrp.Config.Decimal.{show, Below, show-Below, read_digits, read_digits-show}
use rfrp.Config.{Text, ConfigInfo, ClientInfo, init, init_client, format_addr}

-- `rsplit_once(':')`: a cut at the last colon, if there is one.
unfoldable pub rsplit_colon : Text → Option (Text × Text)
rsplit_colon [] = none
rsplit_colon (b ∷ bs) = elim (rsplit_colon bs) [
  | some (l, r) ↦ some (b ∷ l, r)
  | none ↦ if b == b':' then some ([], bs) else none
]

-- The ip and the port that an address names.
unfoldable pub read_addr : Text → Option (Text × ℕ)
read_addr t = elim (rsplit_colon t) [ some (l, r) ↦ some (l, read_digits 0 r) | none ↦ none ]

rsplit_colon-Below : (t : Text) → Below b':' t → rsplit_colon t ≡ none
unfolding rsplit_colon Below
rsplit_colon-Below [] h = refl
rsplit_colon-Below (b ∷ bs) h = ground (arith, rsplit_colon-Below bs h.1)

rsplit_colon-append : (l r : Text) → Below b':' r → rsplit_colon (l ++ (b':' ∷ r)) ≡ some (l, r)
unfolding rsplit_colon
rsplit_colon-append [] r h = rw (rsplit_colon-Below r h)
rsplit_colon-append (x ∷ l) r h = rw (rsplit_colon-append l r h)

read_addr-format_addr :
    (ip : Text) (port : ℕ) → port < 2 ^ 16 → read_addr (format_addr ip port) ≡ some (ip, port)
unfolding read_addr format_addr
read_addr-format_addr ip port h =
    rw (rsplit_colon-append ip (show port) (show-Below port), read_addr)
      (ap (λ n. some (ip, n)) (read_digits-show port h))

get_elem?-map {ℓ κ} :
    {A : Type ℓ} {B : Type κ} (f : A → B) (xs : List A) (i : ℕ) {a : A}
    → get_elem? xs i ≡ some a
    → get_elem? (map f xs) i ≡ some (f a)
get_elem?-map f [] i h = cc
get_elem?-map f (x ∷ xs) zero h = cc
get_elem?-map f (x ∷ xs) (suc i) h = get_elem?-map f xs i h

-- After `init` the cached address of the server reads back as its ip and port, also for an ip with
-- colons, provided the port is a u16.
pub init-server_addr :
    (c : ConfigInfo)
    → c.server_info.server_port < 2 ^ 16
    → read_addr (init c).server_info.addr
      ≡ some ((init c).server_info.server_ip, (init c).server_info.server_port)
unfolding init
init-server_addr c h = read_addr-format_addr c.server_info.server_ip c.server_info.server_port h

-- `init` keeps the order of the proxy entries and changes none of their fields but the address; the
-- address reads back as the entry's ip and port, provided the port is a u16.
pub init-client_addr :
    (c : ConfigInfo) (i : ℕ) (e : ClientInfo)
    → get_elem? c.client_proxy i ≡ some e
    → e.proxy_port < 2 ^ 16
    → (a : Text) × (get_elem? (init c).client_proxy i ≡ some (record e { addr = a }))
      × (read_addr a ≡ some (e.proxy_ip, e.proxy_port))
unfolding init
init-client_addr c i e h p = (
  format_addr e.proxy_ip e.proxy_port,
  unfold init_client in get_elem?-map init_client c.client_proxy i h,
  read_addr-format_addr e.proxy_ip e.proxy_port p,
)
