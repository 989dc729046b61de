-- ===== src/Tcp/Tests.antt =====
-- Frames at concrete inputs.
use radio_cat_rs.Base.{
  ℕ, zero, suc, ◌≤◌, ◌<◌, ◌≡◌, refl, some, [], ◌∷◌, ◌++◌, leb, length, take, drop, ok, err, arith,
  inl, inr, ◌⊎◌, if◌then◌else◌,
}
use radio_cat_rs.Base.Bytes.{Bytes}
use radio_cat_rs.Framework.Process.{response_written}
use radio_cat_rs.Tcp.{io, encode_frame, check_frame_len}
use radio_cat_rs.Tcp.Session.{ReadResult, received, interrupted, Pending, Socket, execute}
use radio_cat_rs.Tcp.Answers.{IsConnected, execute_takes_first}

abbrev query : Bytes
query = b'F' ∷ b'A' ∷ b';' ∷ []

encode_frame-query : encode_frame query ≡ ok (0 ∷ 0 ∷ 0 ∷ 3 ∷ query)
unfolding encode_frame check_frame_len
encode_frame-query = refl

encode_frame-late :
    encode_frame (b'I' ∷ b'D' ∷ b';' ∷ []) ≡ ok (0 ∷ 0 ∷ 0 ∷ 3 ∷ b'I' ∷ b'D' ∷ b';' ∷ [])
unfolding encode_frame check_frame_len
encode_frame-late = refl

-- A socket that is interrupted some times and then gives a byte a read.
abbrev Connection : Type 0
Connection = ℕ × Bytes

unfoldable read_one : ℕ → Connection → Connection × ReadResult
read_one n (suc stalls, incoming) = ((stalls, incoming), interrupted)
read_one n (zero, []) = ((0, []), received [])
read_one n (zero, b ∷ incoming) = ((0, incoming), received (b ∷ []))

unfoldable read_all : ℕ → Connection → Connection × Pending Bytes
read_all n (stalls, incoming) =
    if leb n (length incoming)
    then ((stalls, drop n incoming), some (ok (take n incoming)))
    else ((stalls, []), some (err io))

abbrev one_by_one : Socket Connection
one_by_one = record {
  write_all = λ frame s. (s, some (ok tt));
  read = read_one;
  read_exact = read_all;
}

read_one_lem :
    (n : ℕ) (s : Connection)
    → 0 < n
    → 0 < length s.1
    → (((read_one n s).1 ≡ interrupted) × ((read_one n s).0.1 ≡ s.1) × ((read_one n s).0.0 < s.0))
      ⊎ ((b : ℕ) × (chunk : Bytes) × ((read_one n s).1 ≡ received (b ∷ chunk))
          × (length (b ∷ chunk) ≤ n)
          × (s.1 ≡ (b ∷ chunk) ++ (read_one n s).0.1)
          × ((read_one n s).0.0 ≤ s.0))
unfolding read_one
read_one_lem n (suc stalls, incoming) room more = inl (refl, refl, omega arith)
read_one_lem n (zero, []) room more = absurd (omega arith)
read_one_lem n (zero, b ∷ incoming) room more = inr (b, [], refl, omega arith, refl, omega arith)

read_all_lem :
    (n : ℕ) (s : Connection)
    → n ≤ length s.1
    → ((read_all n s).1 ≡ some (ok (take n s.1))) × ((read_all n s).0.1 ≡ drop n s.1)
unfolding read_all
read_all_lem n (stalls, incoming) enough = (ground arith, ground arith)

one_by_one-IsConnected : IsConnected one_by_one (λ s. s.1) (λ s. s.0)
one_by_one-IsConnected = record {
  write_all_lem = λ frame s. (refl, refl, refl);
  read_lem = read_one_lem;
  read_exact_lem = read_all_lem;
}

-- The answer to another request has come, and one after it.
abbrev late : Bytes
late = b'I' ∷ b'D' ∷ b';' ∷ []

execute_takes_first_example :
    (s' : Connection) × (execute one_by_one 8 query [] (2, (0 ∷ 0 ∷ 0 ∷ 3 ∷ late) ++ (0 ∷ []))
      ≡ (s', late, some (ok response_written)))
    × (s'.1 ≡ 0 ∷ [])
execute_takes_first_example =
    execute_takes_first one_by_one (λ s. s.1) (λ s. s.0) one_by_one-IsConnected 8 query [] late
      (0 ∷ 0 ∷ 0 ∷ 3 ∷ late) (0 ∷ []) (2, (0 ∷ 0 ∷ 0 ∷ 3 ∷ late) ++ (0 ∷ [])) (omega arith)
      encode_frame-late refl (omega arith)
