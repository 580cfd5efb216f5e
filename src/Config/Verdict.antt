-- ===== src/Config/Verdict.antt =====
-- What `validate` accepts.
use rfrp.Base.{
  ℕ, zero, suc, ◌+◌, ◌≤◌, ◌<◌, ◌≡◌, ◌≢◌, ◌⊎◌, inl, inr, refl, sym, true, List, [], ◌∷◌, ◌++◌, none,
  some, arith, get_elem?, Option-cases, some_inj,
}
use mathlib.Core.Path.{subst}
use rfrp.Base.Result.{Result, ok, err}
use mathlib.Core.Logic.{◌↔◌}
use rfrp.Config.Ip.{is_ipv4, is_ipv6}
use rfrp.Config.Ip.Dotted.{IsDotted, is_ipv4_iff}
use rfrp.Config.{Text, RunningMode, server, client, unknown, ConfigInfo, ClientInfo, ServerInfo}
use rfrp.Config.Validate.{
  EntryError, ConfigError, validate_server, check_entry, check_entries, validate_clients, validate,
}

-- What the checks of an ip and a port test.
abbrev Passes : Text → ℕ → Type 0
Passes ip port = (ip ≢ []) × ((is_ipv4 ip ≡ true) ⊎ (is_ipv6 ip ≡ true)) × (0 < port)

-- An IPv4 address in dotted decimal, or one that the parser of IPv6 takes, and a port that is not 0.
abbrev pub IsEndpoint : Text → ℕ → Type 0
IsEndpoint ip port = (ip ≢ []) × (IsDotted ip ⊎ (is_ipv6 ip ≡ true)) × (0 < port)

Passes-IsEndpoint : (ip : Text) (port : ℕ) → Passes ip port → IsEndpoint ip port
Passes-IsEndpoint ip port (filled, inl v4, positive) =
    (filled, inl ((is_ipv4_iff ip).0 v4), positive)
Passes-IsEndpoint ip port (filled, inr v6, positive) = (filled, inr v6, positive)

IsEndpoint-Passes : (ip : Text) (port : ℕ) → IsEndpoint ip port → Passes ip port
IsEndpoint-Passes ip port (filled, inl v4, positive) =
    (filled, inl ((is_ipv4_iff ip).1 v4), positive)
IsEndpoint-Passes ip port (filled, inr v6, positive) = (filled, inr v6, positive)

-- What a configuration must have, by its mode.
abbrev pub IsUsable : ConfigInfo → Type 0
IsUsable c = elim c.running_mode [
  | server ↦
      IsEndpoint c.server_info.server_ip c.server_info.server_port × (c.server_info.auth_token ≢ [])
  | client ↦
      (i : ℕ) × (e : ClientInfo) × (get_elem? c.client_proxy i ≡ some e)
      × IsEndpoint e.proxy_ip e.proxy_port
  | unknown ↦ ⊥
]

check_entry-Passes :
    (i : ℕ) (c : ClientInfo) → (check_entry i c ≡ none) ↔ Passes c.proxy_ip c.proxy_port
unfolding check_entry
check_entry-Passes i c = (λ h. ground arith, λ h. ground arith)

check_entry-none :
    (i : ℕ) (c : ClientInfo) → (check_entry i c ≡ none) ↔ IsEndpoint c.proxy_ip c.proxy_port
check_entry-none i c = (
  λ h. Passes-IsEndpoint c.proxy_ip c.proxy_port ((check_entry-Passes i c).0 h),
  λ h. (check_entry-Passes i c).1 (IsEndpoint-Passes c.proxy_ip c.proxy_port h),
)

validate_server-Passes :
    (s : ServerInfo)
    → (validate_server s ≡ ok tt) ↔ (Passes s.server_ip s.server_port × (s.auth_token ≢ []))
unfolding validate_server
validate_server-Passes s = (λ h. ground arith, λ h. ground arith)

validate_server-ok :
    (s : ServerInfo)
    → (validate_server s ≡ ok tt) ↔ (IsEndpoint s.server_ip s.server_port × (s.auth_token ≢ []))
validate_server-ok s = (
  λ h.
      let (passes, token) = (validate_server-Passes s).0 h in
      (Passes-IsEndpoint s.server_ip s.server_port passes, token),
  λ (ends, token).
      (validate_server-Passes s).1 (IsEndpoint-Passes s.server_ip s.server_port ends, token),
)

pub entries_valid :
    (i : ℕ) (c : ClientInfo) (cs : List ClientInfo) (v : ℕ) (es : List EntryError)
    → check_entry i c ≡ none
    → check_entries i (c ∷ cs) v es ≡ check_entries (i + 1) cs (v + 1) es
unfolding check_entries
entries_valid i c cs v es e = rw (e, check_entries)

pub entries_invalid :
    (i : ℕ) (c : ClientInfo) (cs : List ClientInfo) (v : ℕ) (es : List EntryError) {x : EntryError}
    → check_entry i c ≡ some x
    → check_entries i (c ∷ cs) v es ≡ check_entries (i + 1) cs v (es ++ (x ∷ []))
unfolding check_entries
entries_invalid i c cs v es e = rw (e, check_entries)

pub check_entries-count :
    (i : ℕ) (cs : List ClientInfo) (v : ℕ) (es : List EntryError) → v ≤ (check_entries i cs v es).0
check_entries-count i [] v es = unfold check_entries in omega arith
check_entries-count i (c ∷ cs) v es = elim (Option-cases (check_entry i c)) [
  | inl e ↦
      rw (entries_valid i c cs v es e) (omega (arith, check_entries-count (i + 1) cs (v + 1) es))
  | inr (x, e) ↦
      rw (entries_invalid i c cs v es e) (check_entries-count (i + 1) cs v (es ++ (x ∷ [])))
]

-- The count goes up exactly when some entry passes its checks.
check_entries-usable :
    (i : ℕ) (cs : List ClientInfo) (v : ℕ) (es : List EntryError)
    → v < (check_entries i cs v es).0
    → (j : ℕ) × (e : ClientInfo) × (get_elem? cs j ≡ some e) × IsEndpoint e.proxy_ip e.proxy_port
check_entries-usable i [] v es h = unfold check_entries in absurd (omega arith)
check_entries-usable i (c ∷ cs) v es h = elim (Option-cases (check_entry i c)) [
  | inl e ↦ (0, c, refl, (check_entry-none i c).0 e)
  | inr (x, e) ↦
      let (j, d, at, ends) =
        check_entries-usable (i + 1) cs v (es ++ (x ∷ []))
          (rw (entries_invalid i c cs v es e) at h) in
      (suc j, d, at, ends)
]

usable-check_entries :
    (i : ℕ) (cs : List ClientInfo) (v : ℕ) (es : List EntryError) (j : ℕ) (d : ClientInfo)
    → get_elem? cs j ≡ some d
    → IsEndpoint d.proxy_ip d.proxy_port
    → v < (check_entries i cs v es).0
usable-check_entries i [] v es j d at ends = cc
usable-check_entries i (c ∷ cs) v es zero d at ends =
    rw
      (entries_valid i c cs v es (
        (check_entry-none i c).1 (
          subst (λ (x : ClientInfo). IsEndpoint x.proxy_ip x.proxy_port) (sym (some_inj at)) ends)))
      (omega (arith, check_entries-count (i + 1) cs (v + 1) es))
usable-check_entries i (c ∷ cs) v es (suc j) d at ends = elim (Option-cases (check_entry i c)) [
  | inl e ↦
      rw (entries_valid i c cs v es e)
        (omega (arith, usable-check_entries (i + 1) cs (v + 1) es j d at ends))
  | inr (x, e) ↦
      rw (entries_invalid i c cs v es e)
        (usable-check_entries (i + 1) cs v (es ++ (x ∷ [])) j d at ends)
]

validate_clients-ok :
    (cs : List ClientInfo)
    → (validate_clients cs ≡ ok tt) ↔ (
        (i : ℕ) × (e : ClientInfo) × (get_elem? cs i ≡ some e) × IsEndpoint e.proxy_ip e.proxy_port)
unfolding validate_clients
validate_clients-ok [] = (λ h. cc, λ (i, e, at, ends). cc)
validate_clients-ok (c ∷ cs) = (
  λ h. check_entries-usable 0 (c ∷ cs) 0 [] (ground arith),
  λ (i, e, at, ends). ground (arith, usable-check_entries 0 (c ∷ cs) 0 [] i e at ends),
)

-- `validate` accepts a configuration exactly when it is usable for its mode: a server has a
-- token and an endpoint, a client has at least one entry with an endpoint; the mode Unknown is never
-- accepted. An endpoint is an IPv4 address in dotted decimal, or one that the parser of IPv6 takes, with
-- a port other than 0.
pub validate-accepts : (c : ConfigInfo) → (validate c ≡ ok tt) ↔ IsUsable c
unfolding validate
validate-accepts c = by_mode c.running_mode
  where
    by_mode :
        (m : RunningMode)
        → (elim m as (λ x. Result ConfigError (Unit {0})) [
          | server ↦ validate_server c.server_info
          | client ↦ validate_clients c.client_proxy
          | unknown ↦ err ConfigError.mode_unknown
        ]
            ≡ ok tt)
          ↔ (elim m as (λ x. Type 0) [
            | server ↦
                IsEndpoint c.server_info.server_ip c.server_info.server_port
                × (c.server_info.auth_token ≢ [])
            | client ↦
                (i : ℕ) × (e : ClientInfo) × (get_elem? c.client_proxy i ≡ some e)
                × IsEndpoint e.proxy_ip e.proxy_port
            | unknown ↦ ⊥
          ])
    by_mode server = validate_server-ok c.server_info
    by_mode client = validate_clients-ok c.client_proxy
    by_mode unknown = (λ h. cc, λ h. absurd h)
