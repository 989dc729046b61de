-- ===== src/Tcp/Answers.antt =====
-- The frame that a call of the session takes as its answer.
use radio_cat_rs.Base.{
  ℕ, zero, suc, ◌+◌, ◌-◌, ◌≤◌, ◌<◌, ◌≡◌, refl, sym, ap, ◌∙◌, false, some, [], ◌∷◌, ◌++◌, leb,
  length, length-append, take, drop, append_assoc, append-nil, inl, inr, ◌⊎◌, ok, arith,
  take-length_append, drop-length_append,
}
use radio_cat_rs.Base.Bytes.{Bytes, to_be_bytes, length-to_be_bytes}
use radio_cat_rs.Tcp.{max_frame_size, check_frame_len, encode_frame, decode_len_prefix}
use radio_cat_rs.Tcp.Frames.{decode_prefix}
use radio_cat_rs.Tcp.Session.{
  received, interrupted, Socket, read_exact_or_eof, read_frame_or_eof, read_frame, write_frame,
  execute, disposition,
}

-- What is documented of the socket of a connection that stays up: `incoming` is all that the peer sends
-- and that was not read yet, `stalls` how often a read is still interrupted.
pub record IsConnected {S : Type 0} (socket : Socket S) (incoming : S → Bytes) (stalls : S → ℕ)
    : Type 0 where
  -- A write goes out whole and takes nothing of what comes in.
  pub write_all_lem :
      (frame : Bytes) (s : S)
      → ((socket.write_all frame s).1 ≡ some (ok tt))
        × (incoming (socket.write_all frame s).0 ≡ incoming s)
        × (stalls (socket.write_all frame s).0 ≡ stalls s)
  -- A read into a buffer, while something comes, is interrupted or gives some of the next bytes.
  pub read_lem :
      (n : ℕ) (s : S)
      → 0 < n
      → 0 < length (incoming s)
      → (((socket.read n s).1 ≡ interrupted)
          × (incoming (socket.read n s).0 ≡ incoming s)
          × (stalls (socket.read n s).0 < stalls s))
        ⊎ ((b : ℕ) × (chunk : Bytes) × ((socket.read n s).1 ≡ received (b ∷ chunk))
            × (length (b ∷ chunk) ≤ n)
            × (incoming s ≡ (b ∷ chunk) ++ incoming (socket.read n s).0)
            × (stalls (socket.read n s).0 ≤ stalls s))
  -- `read_exact` gives the next bytes, when as many come.
  pub read_exact_lem :
      (n : ℕ) (s : S)
      → n ≤ length (incoming s)
      → ((socket.read_exact n s).1 ≡ some (ok (take n (incoming s))))
        × (incoming (socket.read_exact n s).0 ≡ drop n (incoming s))

-- The front of a list that is cut in two ways.
split_front :
    (xs ys front rest : Bytes)
    → xs ++ ys ≡ front ++ rest
    → length xs ≤ length front
    → (more : Bytes) × (front ≡ xs ++ more) × (ys ≡ more ++ rest)
split_front [] ys front rest e short = (front, refl, e)
split_front (x ∷ xs) ys [] rest e short = absurd (ground arith)
split_front (x ∷ xs) ys (y ∷ front) rest e short =
    let (more, whole, behind) = split_front xs ys front rest (ground (arith, e)) (ground arith) in
    (more, ground (arith, e, whole), behind)

module _ {S : Type 0} {socket : Socket S} {incoming : S → Bytes} {stalls : S → ℕ}
    (connected : IsConnected socket incoming stalls) where
  step_interrupted :
      (n len : ℕ) (out : Bytes) (s : S)
      → leb len (length out) ≡ false
      → (socket.read (len - length out) s).1 ≡ interrupted
      → read_exact_or_eof socket (suc n) len out s
        ≡ read_exact_or_eof socket n len out (socket.read (len - length out) s).0
  unfolding read_exact_or_eof
  step_interrupted n len out s short result = ground (arith, short, result)

  step_received :
      (n len b : ℕ) (out chunk : Bytes) (s : S)
      → leb len (length out) ≡ false
      → (socket.read (len - length out) s).1 ≡ received (b ∷ chunk)
      → read_exact_or_eof socket (suc n) len out s
        ≡ read_exact_or_eof socket n len (out ++ (b ∷ chunk)) (socket.read (len - length out) s).0
  unfolding read_exact_or_eof
  step_received n len b out chunk s short result = ground (arith, short, result)

  step_whole :
      (n len : ℕ) (out : Bytes) (s : S)
      → length out ≡ len
      → read_exact_or_eof socket (suc n) len out s ≡ (s, some (ok (some out)))
  unfolding read_exact_or_eof
  step_whole n len out s whole = ground arith

  read_exact_or_eof_lem :
      (n len : ℕ) (out front rest : Bytes) (s : S)
      → incoming s ≡ front ++ rest
      → length out + length front ≡ len
      → stalls s + length front < n
      → (s' : S) × (read_exact_or_eof socket n len out s ≡ (s', some (ok (some (out ++ front)))))
        × (incoming s' ≡ rest)
  read_exact_or_eof_lem zero len out front rest s comes whole enough = absurd (ground arith)
  read_exact_or_eof_lem (suc n) len out [] rest s comes whole enough =
      (s, rw (append-nil out) (step_whole n len out s (ground arith)), comes)
  read_exact_or_eof_lem (suc n) len out (b ∷ front) rest s comes whole enough =
      let short : leb len (length out) ≡ false = ground arith in
      let s' = (socket.read (len - length out) s).0 in
      elim (connected.read_lem (len - length out) s (omega arith) (rw comes (omega arith))) [
        | inl (result, same, fewer) ↦
            let (end, returned, behind) =
              read_exact_or_eof_lem n len out (b ∷ front) rest s' (same ∙ comes) whole
                (omega arith) in
            (end, step_interrupted n len out s short result ∙ returned, behind)
        | inr (c, chunk, result, fits, taken, fewer) ↦
            let (more, parts, left) =
              split_front (c ∷ chunk) (incoming s') (b ∷ front) rest (sym taken ∙ comes)
                (omega arith) in
            let together = ap length parts ∙ length-append (c ∷ chunk) more in
            let sum : length (out ++ (c ∷ chunk)) + length more ≡ len =
              rw (length-append out (c ∷ chunk)) (omega arith) in
            let (end, returned, behind) =
              read_exact_or_eof_lem n len (out ++ (c ∷ chunk)) more rest s' left sum
                (omega arith) in
            (
              end,
              step_received n len c out chunk s short result
                  ∙ returned
                  ∙ ground (arith, append_assoc out (c ∷ chunk) more, parts),
              behind,
            )
      ]

  step_frame :
      (n len : ℕ) (prefix payload : Bytes) (s s' : S)
      → read_exact_or_eof socket n 4 [] s ≡ (s', some (ok (some prefix)))
      → decode_len_prefix prefix ≡ ok len
      → (socket.read_exact len s').1 ≡ some (ok payload)
      → read_frame socket n s ≡ ((socket.read_exact len s').0, some (ok payload))
  unfolding read_frame read_frame_or_eof
  step_frame n len prefix payload s s' returned decoded got = ground (arith, returned, decoded, got)

  read_frame_lem :
      (n : ℕ) (payload rest : Bytes) (s : S)
      → length payload ≤ max_frame_size
      → incoming s ≡ to_be_bytes 4 (length payload) ++ (payload ++ rest)
      → stalls s + 4 < n
      → (s' : S) × (read_frame socket n s ≡ (s', some (ok payload))) × (incoming s' ≡ rest)
  read_frame_lem n payload rest s short comes enough =
      let prefix = to_be_bytes 4 (length payload) in
      let four : length prefix ≡ 4 = length-to_be_bytes 4 (length payload) in
      let (s', returned, behind) =
        read_exact_or_eof_lem n 4 [] prefix (payload ++ rest) s comes four (omega arith) in
      let whole = ap length behind ∙ length-append payload rest in
      let (got, left) = connected.read_exact_lem (length payload) s' (omega arith) in
      let decoded = decode_prefix (length payload) short in
      let front : take (length payload) (incoming s') ≡ payload =
        rw behind (take-length_append payload rest) in
      let back : drop (length payload) (incoming s') ≡ rest =
        rw behind (drop-length_append payload rest) in
      (
        (socket.read_exact (length payload) s').0,
        step_frame n (length payload) prefix payload s s' returned decoded
            (got ∙ ap (λ (found : Bytes). some (ok found)) front),
        left ∙ back,
      )

encode_frame_ok :
    (payload frame : Bytes)
    → encode_frame payload ≡ ok frame
    → (length payload ≤ max_frame_size) × (frame ≡ to_be_bytes 4 (length payload) ++ payload)
unfolding encode_frame check_frame_len
encode_frame_ok payload frame e = (ground arith, ground arith)

encode_frame_short :
    (payload : Bytes)
    → length payload ≤ max_frame_size
    → (frame : Bytes) × (encode_frame payload ≡ ok frame)
unfolding encode_frame check_frame_len
encode_frame_short payload short = (to_be_bytes 4 (length payload) ++ payload, ground arith)

step_execute :
    {S : Type 0} (socket : Socket S) (n : ℕ) (request response sent payload : Bytes) (s end : S)
    → encode_frame request ≡ ok sent
    → (socket.write_all sent s).1 ≡ some (ok tt)
    → read_frame socket n (socket.write_all sent s).0 ≡ (end, some (ok payload))
    → execute socket n request response s
      ≡ (end, response ++ payload, some (ok (disposition socket payload)))
unfolding execute write_frame
step_execute socket n request response sent payload s end encoded written returned =
    ground (arith, encoded, written, returned)

-- On a connection that stays up, a call with a request of at most 65536 bytes that waits long enough
-- takes the first frame that was not read yet as its answer, whichever request that answers: the
-- payload goes behind the response buffer, and what follows the frame is left for the next call.
pub execute_takes_first :
    {S : Type 0} (socket : Socket S) (incoming : S → Bytes) (stalls : S → ℕ)
    → IsConnected socket incoming stalls
    → (n : ℕ) (request response payload frame rest : Bytes) (s : S)
    → length request ≤ max_frame_size
    → encode_frame payload ≡ ok frame
    → incoming s ≡ frame ++ rest
    → stalls s + 4 < n
    → (s' : S) × (execute socket n request response s
        ≡ (s', response ++ payload, some (ok (disposition socket payload))))
      × (incoming s' ≡ rest)
execute_takes_first {S} socket incoming stalls connected n request response payload frame rest s
      short encoded comes enough =
    let (fits, framed) = encode_frame_ok payload frame encoded in
    let (sent, sent_whole) = encode_frame_short request short in
    let (written, same, waits) = connected.write_all_lem sent s in
    let s' = (socket.write_all sent s).0 in
    let (end, returned, behind) =
      read_frame_lem connected n payload rest s' fits
        (same
          ∙ comes
          ∙ ap (λ (found : Bytes). found ++ rest) framed
          ∙ append_assoc (to_be_bytes 4 (length payload)) payload rest)
        (omega arith) in
    (
      end,
      step_execute socket n request response sent payload s end sent_whole written returned,
      behind,
    )
