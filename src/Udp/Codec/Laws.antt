-- ===== src/Udp/Codec/Laws.antt =====
-- Envelopes written and read back; the bound and the content of the cache.
use radio_cat_rs.Base.{
  ℕ, ◌^◌, ◌≤◌, ◌<◌, Bool, true, ◌||◌, ◌≡◌, refl, ◌∙◌, List, [], ◌∷◌, ◌++◌, ◌==◌, ==_iff, length,
  take, drop, any, some, ok, arith, append_assoc, length-append, length-drop, take-length_append,
  drop-length_append,
}
use radio_cat_rs.Base.Bytes.{Bytes, to_be_bytes, length-to_be_bytes, from-to_be_bytes}
use radio_cat_rs.Udp.Codec.{
  encode_envelope, decode_envelope, max_payload_size, max_datagram_size, RequestIdCache,
  remember_completed, is_known_duplicate, dedup_cache_capacity,
}

take_header : (n : ℕ) (a rest : Bytes) → length a ≡ n → take n (a ++ rest) ≡ a
take_header n a rest e = rw (← e) (take-length_append a rest)

drop_header : (n : ℕ) (a rest : Bytes) → length a ≡ n → drop n (a ++ rest) ≡ rest
drop_header n a rest e = rw (← e) (drop-length_append a rest)

module _ (session_id request_id : ℕ) (payload : Bytes) where
  decode_encoded :
      session_id < 256 ^ 8
      → request_id < 256 ^ 8
      → decode_envelope (to_be_bytes 8 session_id ++ (to_be_bytes 8 request_id ++ payload))
        ≡ some (session_id, request_id, payload)
  unfolding decode_envelope
  decode_encoded hs hr =
      let s = to_be_bytes 8 session_id in
      let r = to_be_bytes 8 request_id in
      let ls = length-to_be_bytes 8 session_id in
      let lr = length-to_be_bytes 8 request_id in
      ground (
        arith,
        length-append s (r ++ payload),
        length-append r payload,
        ls,
        lr,
        take_header 8 s (r ++ payload) ls,
        drop_header 8 s (r ++ payload) ls,
        take_header 8 r payload lr,
        drop_header 16 (s ++ r) payload (length-append s r ∙ omega arith),
        append_assoc s r payload,
        from-to_be_bytes 8 session_id hs,
        from-to_be_bytes 8 request_id hr,
      )

  -- Two ids that fit in 64 bits and a payload of at most 1024 bytes are sent in one datagram, which
  -- fits the receive buffer and is decoded to the same ids and payload.
  pub decode-encode_envelope :
      session_id < 256 ^ 8
      → request_id < 256 ^ 8
      → length payload ≤ max_payload_size
      → (datagram : Bytes) × (encode_envelope session_id request_id payload ≡ ok datagram)
        × (decode_envelope datagram ≡ some (session_id, request_id, payload))
        × (length datagram ≤ max_datagram_size)
  unfolding encode_envelope
  decode-encode_envelope hs hr hp =
      let s = to_be_bytes 8 session_id in
      let r = to_be_bytes 8 request_id in
      (
        s ++ (r ++ payload),
        ground arith,
        decode_encoded hs hr,
        omega (
          arith,
          length-append s (r ++ payload),
          length-append r payload,
          length-to_be_bytes 8 session_id,
          length-to_be_bytes 8 request_id,
        ),
      )

any-append : (p : ℕ → Bool) (xs ys : List ℕ) → any p (xs ++ ys) ≡ (any p xs || any p ys)
any-append p [] ys = refl
any-append p (x ∷ xs) ys = ground (arith, any-append p xs ys)

-- The cache never holds more ids than its capacity, and knows the id that was completed last.
pub remember_completed_bound :
    (request_id : ℕ) (entries : RequestIdCache)
    → length entries ≤ dedup_cache_capacity
    → (length (remember_completed request_id entries) ≤ dedup_cache_capacity)
      × (is_known_duplicate request_id (remember_completed request_id entries) ≡ true)
unfolding remember_completed is_known_duplicate
remember_completed_bound request_id entries h =
    let p = λ (e : ℕ). e == request_id in
    ground (
      arith,
      length-append (drop 1 entries) (request_id ∷ []),
      length-append entries (request_id ∷ []),
      length-drop 1 entries,
      any-append p (drop 1 entries) (request_id ∷ []),
      any-append p entries (request_id ∷ []),
      ==_iff request_id request_id,
    )
