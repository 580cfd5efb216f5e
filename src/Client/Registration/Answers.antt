-- ===== src/Client/Registration/Answers.antt =====
-- What a registration leaves, whatever comes in.
use rfrp.Base.{ℕ, ◌≡◌, refl, ap, List, [], ◌∷◌, ◌++◌, none, some, ◌⊎◌, inl, inr, Bool-cases}
use rfrp.Base.Result.{Result, ok, err}
use rfrp.Config.{ClientInfo}
use rfrp.Frame.{RfrpFrame, register, register_ack, control, data_frame}
use rfrp.Crypto.{ProtoError, Cipher}
use rfrp.Compress.{Outcome, returns}
use rfrp.Codec.{Crates}
use rfrp.Codec.Laws.{AreCrates}
use rfrp.Codec.RoundTrip.{decode-ends}
use rfrp.Client.Registration.{
  Exchange, send_failed, read_error, closed, keepalive_timeout, answered, Registration, Phase,
  registered, gave_up, awaiting, send_register, on_reply, register_all,
}
use rfrp.Client.Registration.Acks.{Grant, infos_of, granted, assigned}

-- The first of these proxies have been stored, in order and each under some id, and nothing else.
abbrev pub IsPartial : List ClientInfo → Registration → Registration → Type 0
IsPartial infos s s' =
    (grants : List Grant) × (rest : List ClientInfo) × (infos_of grants ++ rest ≡ infos)
    × (s'.proxy_configs ≡ (assigned grants s).proxy_configs)

-- A registration that succeeded has sent every proxy, and stored each under some id; one that has not
-- has stored the first ones.
abbrev pub IsComplete : {State : Type 0} → List ClientInfo → Registration → Phase State → Type 0
IsComplete infos s (registered s' decomp_buf decompress) =
    (grants : List Grant) × (infos_of grants ≡ infos) × (s' ≡ assigned grants s)
IsComplete infos s (gave_up s') = IsPartial infos s s'
IsComplete infos s (awaiting s') = IsPartial infos s s'

-- A reply either gives the session up or stores the entry under an id.
on_reply-cases :
    (info : ClientInfo) (f : RfrpFrame) (s : Registration)
    → (on_reply info f (send_register info s) ≡ none)
      ⊎ ((id : ℕ) × (on_reply info f (send_register info s) ≡ some (granted info id s)))
unfolding on_reply send_register
on_reply-cases info (register c) s = inl refl
on_reply-cases info (control c) s = inl refl
on_reply-cases info (data_frame d) s = inl refl
on_reply-cases info (register_ack r) s = elim (Bool-cases r.success) [
  | inl e ↦ inr (r.proxy_id, rw e refl)
  | inr e ↦ inl (rw e refl)
]

extend :
    {State : Type 0} (info : ClientInfo) (infos : List ClientInfo) (s : Registration) (id : ℕ)
    (p : Phase State)
    → IsComplete infos (granted info id s) p
    → IsComplete (info ∷ infos) s p
extend info infos s id (registered s' b st) (grants, same, all) =
    ((info, id) ∷ grants, ap (λ l. info ∷ l) same, all)
extend info infos s id (gave_up s') (grants, rest, same, stored) =
    ((info, id) ∷ grants, rest, ap (λ l. info ∷ l) same, stored)
extend info infos s id (awaiting s') (grants, rest, same, stored) =
    ((info, id) ∷ grants, rest, ap (λ l. info ∷ l) same, stored)

-- The registration answers, and completely.
abbrev pub Answers :
    {State : Type 0} → List ClientInfo → Registration → Outcome (Phase State) → Type 0
Answers {State} infos s o = (p : Phase State) × (o ≡ returns p) × IsComplete infos s p

module _ (crates : Crates) (laws : AreCrates crates) where
  -- Whatever the server and the network do, and whatever bytes come in, the registration answers: no
  -- slice or subtraction of decryption and decompression panics, and no loop runs on, where every send
  -- ends. When it succeeds, it has sent every proxy of the configuration and stored each as the
  -- configuration has it, in order, under some ids, and nothing else; when it gives up or waits, it has
  -- stored the first ones in this way.
  pub register_all-Answers :
      (infos : List ClientInfo) (xs : List Exchange) (d : Cipher) (decomp_buf : List ℕ)
      (decompress : crates.inflate.State) (s : Registration)
      → Answers infos s (register_all crates d infos xs decomp_buf decompress s)
  unfolding register_all send_register
  register_all-Answers [] xs d decomp_buf decompress s =
      (registered s decomp_buf decompress, refl, ([], refl, refl))
  register_all-Answers (info ∷ infos) [] d decomp_buf decompress s =
      (awaiting s, refl, ([], info ∷ infos, refl, refl))
  register_all-Answers (info ∷ infos) (send_failed ∷ xs) d decomp_buf decompress s =
      (gave_up s, refl, ([], info ∷ infos, refl, refl))
  register_all-Answers (info ∷ infos) (read_error ∷ xs) d decomp_buf decompress s =
      (gave_up (send_register info s), refl, ([], info ∷ infos, refl, refl))
  register_all-Answers (info ∷ infos) (closed ∷ xs) d decomp_buf decompress s =
      (gave_up (send_register info s), refl, ([], info ∷ infos, refl, refl))
  register_all-Answers (info ∷ infos) (keepalive_timeout ∷ xs) d decomp_buf decompress s =
      (gave_up (send_register info s), refl, ([], info ∷ infos, refl, refl))
  register_all-Answers (info ∷ infos) (answered bytes ∷ xs) d decomp_buf decompress s =
      let (res, buf, decomp_buf', decompress', e) =
        decode-ends crates laws bytes d decomp_buf decompress in
      rw (e, register_all)
        (by_result res decomp_buf' decompress'
          (register_all-Answers infos xs d decomp_buf' decompress'))
    where
      by_result :
          (res : Result ProtoError RfrpFrame) (decomp_buf' : List ℕ)
          (decompress' : crates.inflate.State)
          → ((s' : Registration)
              → Answers infos s' (register_all crates d infos xs decomp_buf' decompress' s'))
          → Answers (info ∷ infos) s (elim res [
            | err e ↦ returns (gave_up (send_register info s))
            | ok f ↦ elim (on_reply info f (send_register info s)) [
              | none ↦ returns (gave_up (send_register info s))
              | some s' ↦ register_all crates d infos xs decomp_buf' decompress' s'
            ]
          ])
      by_result (err e) decomp_buf' decompress' later =
          (gave_up (send_register info s), refl, ([], info ∷ infos, refl, refl))
      by_result (ok f) decomp_buf' decompress' later = elim (on_reply-cases info f s) [
        | inl none_left ↦
            rw none_left (gave_up (send_register info s), refl, ([], info ∷ infos, refl, refl))
        | inr (id, stored) ↦
            let (p, returned, whole) = later (granted info id s) in
            rw stored (p, returned, extend info infos s id p whole)
      ]
