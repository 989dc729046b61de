-- ===== src/Udp/Session/Execute.antt =====
-- One `execute` from its envelope to its answer: it takes the first answer behind the noise, and returns
-- nothing that is not an answer.
use radio_cat_rs.Base.{
  ℕ, zero, suc, ◌^◌, ◌≤◌, ◌<◌, Bool, true, false, ◌≡◌, refl, sym, ap, ◌∙◌, List, [], ◌∷◌, ◌++◌,
  ◌==◌, ==_iff, if◌then◌else◌, length, take, All, none, some, ok, err, ok_inj, Result-cases,
  Bool-cases, inl, inr, arith,
}
use radio_cat_rs.Base.Bytes.{Bytes}
use radio_cat_rs.Udp.Codec.{
  io, UdpSessionError, encode_envelope, max_payload_size, max_datagram_size,
}
use radio_cat_rs.Udp.Codec.Laws.{decode-encode_envelope}
use radio_cat_rs.Udp.Session.{
  UdpCatSession, Arrival, datagram, ResponseDisposition, Execution, accept, remember, disposition,
  wait, finished, next_id, advance, execute,
}
use radio_cat_rs.Udp.Session.Answers.{IsNoise, wait-take, wait-noise, Answered, wait-Answered}

take_all : (n : ℕ) (xs : Bytes) → length xs ≤ n → take n xs ≡ xs
take_all zero [] h = refl
take_all zero (x ∷ xs) h = absurd (omega arith)
take_all (suc n) [] h = refl
take_all (suc n) (x ∷ xs) h = ap (◌∷◌ x) (take_all n xs (omega arith))

-- The peer's envelope for a session and a request.
accept_envelope :
    (s : UdpCatSession) (session_id request_id expected : ℕ) (payload incoming : Bytes)
    → session_id < 256 ^ 8
    → request_id < 256 ^ 8
    → length payload ≤ max_payload_size
    → encode_envelope session_id request_id payload ≡ ok incoming
    → accept s expected s.peer_addr incoming ≡ (
        if session_id == s.session_id
        then (if request_id == expected then some payload else none)
        else none)
unfolding accept
accept_envelope s session_id request_id expected payload incoming hs hr hp sent =
    let (written, written_eq, decoded, fits) =
      decode-encode_envelope session_id request_id payload hs hr hp in
    let same = ok_inj (sym written_eq ∙ sent) in
    rw (← same, take_all max_datagram_size written fits, decoded)
      (ground (arith, ==_iff s.peer_addr s.peer_addr))

module _ (s : UdpCatSession) (request response : Bytes) where
  execute-wait :
      (bytes : Bytes) (arrivals : List Arrival)
      → encode_envelope s.session_id (next_id s) request ≡ ok bytes
      → execute s request true arrivals response
        ≡ wait (advance s) (next_id s) bytes arrivals response
  unfolding execute
  execute-wait bytes arrivals h = rw (h, execute) refl

  execute-unsent :
      (bytes : Bytes) (arrivals : List Arrival)
      → encode_envelope s.session_id (next_id s) request ≡ ok bytes
      → (execute s request false arrivals response).result ≡ some (err io)
  unfolding execute
  execute-unsent bytes arrivals h = rw (h, execute) refl

  execute-refused :
      (send_ok : Bool) (e : UdpSessionError) (arrivals : List Arrival)
      → encode_envelope s.session_id (next_id s) request ≡ err e
      → (execute s request send_ok arrivals response).result ≡ some (err e)
  unfolding execute
  execute-refused send_ok e arrivals h = rw (h, execute) refl

  execute-sent :
      (send_ok : Bool) (arrivals : List Arrival) (d : ResponseDisposition)
      → (execute s request send_ok arrivals response).result ≡ some (ok d)
      → (bytes : Bytes) × (encode_envelope s.session_id (next_id s) request ≡ ok bytes)
        × (send_ok ≡ true)
  execute-sent send_ok arrivals d h =
      elim (Result-cases (encode_envelope s.session_id (next_id s) request)) [
        | inl (bytes, sent) ↦ (
          bytes,
          sent,
          elim (Bool-cases send_ok) [
            | inl given ↦ given
            | inr unsent ↦ let refusal = execute-unsent bytes arrivals sent in cc
          ],
        )
        | inr (e, refused) ↦ let refusal = execute-refused send_ok e arrivals refused in cc
      ]

  -- Behind any datagrams that are not the answer, the peer's envelope with the session's id and the
  -- id of this request is the answer: it ends the call, its payload is appended to the response, it
  -- tells the disposition, the id of the request is remembered, and what follows is left unread.
  pub execute_takes_answer :
      (bytes answer payload : Bytes) (noise arrivals : List Arrival)
      → s.session_id < 256 ^ 8
      → length payload ≤ max_payload_size
      → encode_envelope s.session_id (next_id s) request ≡ ok bytes
      → encode_envelope s.session_id (next_id s) payload ≡ ok answer
      → All (IsNoise (advance s) (next_id s)) noise
      → execute s request true (noise ++ (datagram s.peer_addr answer ∷ arrivals)) response
        ≡ finished
            (remember (advance s) (next_id s))
            bytes
            (response ++ payload)
            (ok (disposition payload))
            arrivals
  execute_takes_answer bytes answer payload noise arrivals hs hp sent answered quiet =
      execute-wait bytes (noise ++ (datagram s.peer_addr answer ∷ arrivals)) sent
      ∙ wait-noise (advance s) (next_id s) bytes response noise
          (datagram s.peer_addr answer ∷ arrivals) quiet
      ∙ wait-take (advance s) (next_id s) bytes response s.peer_addr answer payload arrivals (
          accept_envelope (advance s) s.session_id (next_id s) (next_id s) payload answer hs
            (omega arith) hp answered
          ∙ ground (arith, ==_iff s.session_id s.session_id, ==_iff (next_id s) (next_id s)))

  -- A call that returns a disposition has read an answer: a datagram of the peer that decodes to the
  -- session's id, the id of this request and a payload, behind datagrams that do not. The response
  -- is extended by that payload, and the id of the request is known as completed.
  pub execute-Answered :
      (send_ok : Bool) (arrivals : List Arrival) (d : ResponseDisposition)
      → (execute s request send_ok arrivals response).result ≡ some (ok d)
      → Answered
          (advance s)
          (next_id s)
          response
          arrivals
          d
          (execute s request send_ok arrivals response)
  execute-Answered send_ok arrivals d h =
      let (bytes, sent, was_sent) = execute-sent send_ok arrivals d h in
      let run =
        ap (λ b. execute s request b arrivals response) was_sent
        ∙ execute-wait bytes arrivals sent in
      rw run (
        wait-Answered (advance s) (next_id s) bytes response arrivals d
          (sym (ap (λ (e : Execution). e.result) run) ∙ h))

-- A late answer to the request before is noise to the next request.
pub late_answer-IsNoise :
    (s : UdpCatSession) (payload late : Bytes)
    → s.session_id < 256 ^ 8
    → length payload ≤ max_payload_size
    → encode_envelope s.session_id (next_id s) payload ≡ ok late
    → IsNoise (advance (advance s)) (next_id (advance s)) (datagram s.peer_addr late)
late_answer-IsNoise s payload late hs hp sent =
    accept_envelope (advance (advance s)) s.session_id (next_id s) (next_id (advance s)) payload
      late hs (omega arith) hp sent
    ∙ ground (arith, ==_iff s.session_id s.session_id, ==_iff (next_id s) (next_id (advance s)))
