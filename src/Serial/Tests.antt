-- ===== src/Serial/Tests.antt =====
-- The serial session at concrete inputs.
use radio_cat_rs.Base.{
  ℕ, suc, Bool, false, ◌≡◌, refl, [], ◌∷◌, ◌==◌, Option, none, some, Result, ok, arith,
}
use radio_cat_rs.Base.Bytes.{Bytes}
use radio_cat_rs.Serial.{TransportError, Transport, response_written, Outcome, put, execute}
use radio_cat_rs.Serial.Frames.{IsTidy, execute-IsTidy, execute-frame}

-- A line that answers every request with `FA;` and a byte of what comes next. Its clock goes on with
-- every byte that is read.
abbrev Wire : Type 0
Wire = ℕ × Bytes

abbrev next_byte : Wire → Wire × Result TransportError (Option ℕ)
next_byte (clock, []) = ((clock, []), ok none)
next_byte (clock, b ∷ bytes) = ((suc clock, bytes), ok (some b))

abbrev line : Transport Wire
line = record {
  drain = λ t. (t.0, []);
  write = λ request t. ((t.0, b'F' ∷ b'A' ∷ b';' ∷ b'I' ∷ []), ok tt);
  flush = λ t. (t, ok tt);
  read = next_byte;
  flush_rx = λ t. (t.0, []);
  now = λ t. t.0;
}

abbrev ends_frame : Bytes → Bool
ends_frame [] = false
ends_frame (b ∷ []) = b == b';'
ends_frame (b ∷ c ∷ bytes) = ends_frame (c ∷ bytes)

abbrev request : Bytes
request = b'F' ∷ b'A' ∷ b';' ∷ []

execute-IsTidy_example :
    (o : Outcome Wire) × (execute line ends_frame request [] (40, b'?' ∷ []) ≡ some o)
    × IsTidy line ends_frame o
unfolding put
execute-IsTidy_example = execute-IsTidy line ends_frame request (40, b'?' ∷ []) refl

execute-frame_example :
    execute line ends_frame request [] (40, b'?' ∷ [])
    ≡ some ((43, b'I' ∷ []), b'F' ∷ b'A' ∷ b';' ∷ [], ok response_written)
unfolding put
execute-frame_example =
    execute-frame line ends_frame request (b'F' ∷ b'A' ∷ b';' ∷ []) (40, b'?' ∷ []) (43, b'I' ∷ [])
      refl (omega arith) (refl, (refl, refl))
      (omega arith, refl, (omega arith, refl, (omega arith, refl, refl)))
