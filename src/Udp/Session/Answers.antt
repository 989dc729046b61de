-- ===== src/Udp/Session/Answers.antt =====
-- Which datagrams a session takes as its answer, and what it does with them.
use radio_cat_rs.Base.{
  ℕ, true, false, ◌≡◌, refl, sym, inl, inr, ap, ◌∙◌, List, [], ◌∷◌, ◌++◌, ==_iff, take, All, Option,
  none, some, Option-cases, Result, ok, arith,
}
use radio_cat_rs.Base.Bytes.{Bytes}
use radio_cat_rs.Udp.Codec.{SocketAddr, UdpSessionError, decode_envelope, max_datagram_size}
use radio_cat_rs.Udp.Session.{
  UdpCatSession, Arrival, datagram, failed, elapsed, ResponseDisposition, Execution, accept,
  remember, disposition, wait, finished,
}

result_inj :
    {a b : ResponseDisposition}
    → ◌≡◌ {A = Option (Result UdpSessionError ResponseDisposition)} (some (ok a)) (some (ok b))
    → b ≡ a
result_inj h = cc

-- A datagram that is not the answer of request `request_id`.
abbrev pub IsNoise : UdpCatSession → ℕ → Arrival → Type 0
IsNoise s request_id (datagram from bytes) = accept s request_id from bytes ≡ none
IsNoise s request_id failed = true ≡ false
IsNoise s request_id elapsed = true ≡ false

module _ (s : UdpCatSession) (request_id : ℕ) (response : Bytes) where
  -- What was read when `wait` returns the disposition `d`.
  abbrev pub Answered : List Arrival → ResponseDisposition → Execution → Type 0
  Answered arrivals d e =
      (noise : List Arrival) × (incoming : Bytes) × (payload : Bytes) × (arrivals
        ≡ noise ++ (datagram s.peer_addr incoming ∷ e.unread))
      × All (IsNoise s request_id) noise
      × (decode_envelope (take max_datagram_size incoming)
          ≡ some (s.session_id, request_id, payload))
      × (e.response ≡ response ++ payload)
      × (d ≡ disposition payload)
      × (e.session ≡ remember s request_id)

module _ (s : UdpCatSession) (request_id : ℕ) (bytes response : Bytes) where
  wait-ignore :
      (from : SocketAddr) (incoming : Bytes) (arrivals : List Arrival)
      → accept s request_id from incoming ≡ none
      → wait s request_id bytes (datagram from incoming ∷ arrivals) response
        ≡ wait s request_id bytes arrivals response
  unfolding wait
  wait-ignore from incoming arrivals h = rw (h, wait) refl

  pub wait-take :
      (from : SocketAddr) (incoming payload : Bytes) (arrivals : List Arrival)
      → accept s request_id from incoming ≡ some payload
      → wait s request_id bytes (datagram from incoming ∷ arrivals) response
        ≡ finished
            (remember s request_id)
            bytes
            (response ++ payload)
            (ok (disposition payload))
            arrivals
  unfolding wait
  wait-take from incoming payload arrivals h = rw (h, wait) refl

  pub wait-noise :
      (noise arrivals : List Arrival)
      → All (IsNoise s request_id) noise
      → wait s request_id bytes (noise ++ arrivals) response
        ≡ wait s request_id bytes arrivals response
  wait-noise [] arrivals h = refl
  wait-noise (datagram from incoming ∷ noise) arrivals (h, hs) =
      wait-ignore from incoming (noise ++ arrivals) h ∙ wait-noise noise arrivals hs
  wait-noise (failed ∷ noise) arrivals (h, hs) = cc
  wait-noise (elapsed ∷ noise) arrivals (h, hs) = cc

  accept-some :
      (from : SocketAddr) (incoming payload : Bytes)
      → accept s request_id from incoming ≡ some payload
      → (from ≡ s.peer_addr)
        × (decode_envelope (take max_datagram_size incoming)
            ≡ some (s.session_id, request_id, payload))
  unfolding accept
  accept-some from incoming payload h = ground (arith, ==_iff from s.peer_addr)

  Answered-ignore :
      (from : SocketAddr) (incoming : Bytes) (arrivals : List Arrival) (d : ResponseDisposition)
      (e : Execution)
      → accept s request_id from incoming ≡ none
      → Answered s request_id response arrivals d e
      → Answered s request_id response (datagram from incoming ∷ arrivals) d e
  Answered-ignore from incoming arrivals d e h
        (noise, answer, payload, split, quiet, decoded, read, kind, kept) =
      (
        datagram from incoming ∷ noise,
        answer,
        payload,
        ap (◌∷◌ (datagram from incoming)) split,
        (h, quiet),
        decoded,
        read,
        kind,
        kept,
      )

  wait-end :
      (arrivals : List Arrival) (d : ResponseDisposition)
      → (wait s request_id bytes arrivals response).result ≡ some (ok d)
      → (from : SocketAddr) × (incoming : Bytes) × (rest : List Arrival) × (arrivals
          ≡ datagram from incoming ∷ rest)
  unfolding wait
  wait-end [] d h = cc
  wait-end (failed ∷ arrivals) d h = cc
  wait-end (elapsed ∷ arrivals) d h = cc
  wait-end (datagram from incoming ∷ arrivals) d h = (from, incoming, arrivals, refl)

  pub wait-Answered :
      (arrivals : List Arrival) (d : ResponseDisposition)
      → (wait s request_id bytes arrivals response).result ≡ some (ok d)
      → Answered s request_id response arrivals d (wait s request_id bytes arrivals response)
  wait-Answered [] d h = let (from, incoming, rest, read) = wait-end [] d h in cc
  wait-Answered (failed ∷ arrivals) d h =
      let (from, incoming, rest, read) = wait-end (failed ∷ arrivals) d h in cc
  wait-Answered (elapsed ∷ arrivals) d h =
      let (from, incoming, rest, read) = wait-end (elapsed ∷ arrivals) d h in cc
  wait-Answered (datagram from incoming ∷ arrivals) d h =
      elim (Option-cases (accept s request_id from incoming)) [
        | inl ignored ↦ rw (wait-ignore from incoming arrivals ignored) (
            Answered-ignore from incoming arrivals d (wait s request_id bytes arrivals response)
              ignored
              (wait-Answered arrivals d (
                ap (λ (e : Execution). e.result) (sym (wait-ignore from incoming arrivals ignored))
                ∙ h)))
        | inr (payload, taken) ↦
            let step = wait-take from incoming payload arrivals taken in
            let (peer, decoded) = accept-some from incoming payload taken in
            rw step (
              [],
              incoming,
              payload,
              ap (λ a. datagram a incoming ∷ arrivals) peer,
              tt,
              decoded,
              refl,
              result_inj (sym (ap (λ (e : Execution). e.result) step) ∙ h),
              refl,
            )
      ]
