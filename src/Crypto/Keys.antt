-- ===== src/Crypto/Keys.antt =====
-- What the session key depends on.
use rfrp.Base.{
  ℕ, ◌+◌, ◌≡◌, refl, sym, ap, ◌∙◌, List, ◌++◌, arith, length, take, drop, take-append, drop-append,
  length-append,
}
use rfrp.Base.Bytes.{codes}
use rfrp.Crypto.{session_input}

append_split {ℓ} :
    {A : Type ℓ} (xs ys us vs : List A)
    → length xs ≡ length us
    → xs ++ ys ≡ us ++ vs
    → (xs ≡ us) × (ys ≡ vs)
append_split xs ys us vs h e = (
  sym (take-append (length xs) xs ys refl)
      ∙ ap (take (length xs)) e
      ∙ take-append (length xs) us vs h,
  sym (drop-append (length xs) xs ys refl)
      ∙ ap (drop (length xs)) e
      ∙ drop-append (length xs) us vs h,
)

-- Two handshakes hash the same bytes only if token and both nonces agree, whatever the tokens' sizes;
-- the nonces have 32 bytes each.
pub session_input_injective :
    (token client_nonce server_nonce token' client_nonce' server_nonce' : List ℕ)
    → length client_nonce ≡ 32
    → length client_nonce' ≡ 32
    → length server_nonce ≡ 32
    → length server_nonce' ≡ 32
    → session_input token client_nonce server_nonce
      ≡ session_input token' client_nonce' server_nonce'
    → (token ≡ token') × (client_nonce ≡ client_nonce') × (server_nonce ≡ server_nonce')
unfolding session_input
session_input_injective t c s t' c' s' hc hc' hs hs' e =
    let (tokens, tails) = append_split t _ t' _ (omega (arith, sizes)) e in
    let (labels, nonces) =
      append_split (codes "rfrp-handshake-v1") (c ++ s) (codes "rfrp-handshake-v1") (c' ++ s') refl
        tails in
    let (clients, servers) = append_split c s c' s' (hc ∙ sym hc') nonces in
    (tokens, clients, servers)
  where
    label : List ℕ
    label = codes "rfrp-handshake-v1"

    size :
        (t c s : List ℕ)
        → length c ≡ 32
        → length s ≡ 32
        → length (t ++ (label ++ (c ++ s))) ≡ length t + (17 + 64)
    size t c s hc hs =
        length-append t (label ++ (c ++ s))
        ∙ omega (arith, length-append label (c ++ s), length-append c s)

    sizes : length t ≡ length t'
    sizes = omega (arith, ap length e, size t c s hc hs, size t' c' s' hc' hs')
