-- ===== src/Tcp/Session.antt =====
-- cat-transport-tcp/src/session.rs: frames read from a socket, and the session over it. The socket is
-- monoio's.
use radio_cat_rs.Base.{
  ℕ, zero, suc, ◌-◌, true, false, Option, none, some, [], ◌∷◌, ◌++◌, leb, length, Result, ok, err,
}
use radio_cat_rs.Base.Bytes.{Bytes}
use radio_cat_rs.Framework.Process.{ResponseDisposition, response_written, no_response}
use radio_cat_rs.Client.{CatSession}
use radio_cat_rs.Tcp.{TcpSessionError, io, encode_frame, decode_len_prefix}

-- What `read` gives: `Ok` with the bytes it put into the buffer, or an error.
pub data ReadResult : Type 0 where
  received : (chunk : Bytes) → ReadResult
  interrupted : ReadResult
  failed : ReadResult

-- An operation that has not come back when its caller stops waiting gives `none`.
abbrev pub Pending : Type 0 → Type 0
Pending A = Option (Result TcpSessionError A)

-- `TcpStream`, with the operations that the session calls.
pub record Socket (S : Type 0) : Type 0 where
  pub write_all : Bytes → S → S × Pending (Unit {0})
  pub read : ℕ → S → S × ReadResult
  pub read_exact : ℕ → S → S × Pending Bytes

-- `.await?`.
abbrev pub await_ok : {S A B : Type 0} → S × Pending A → (A → S → S × Pending B) → S × Pending B
await_ok (s, none) f = (s, none)
await_ok (s, some (err e)) f = (s, some (err e))
await_ok (s, some (ok a)) f = f a s

abbrev pub eof_of : Bytes → Result TcpSessionError (Option Bytes)
eof_of [] = ok none
eof_of (b ∷ out) = err io

module _ {S : Type 0} (socket : Socket S) where
  -- The rounds of the loop that come before the caller stops waiting.
  unfoldable pub read_exact_or_eof : ℕ → ℕ → Bytes → S → S × Pending (Option Bytes)
  read_exact_or_eof zero len out s = (s, none)
  read_exact_or_eof (suc n) len out s = elim (leb len (length out)) [
    | true ↦ (s, some (ok (some out)))
    | false ↦
        let (s', result) = socket.read (len - length out) s in
        elim result [
          | received [] ↦ (s', some (eof_of out))
          | received (b ∷ chunk) ↦ read_exact_or_eof n len (out ++ (b ∷ chunk)) s'
          | interrupted ↦ read_exact_or_eof n len out s'
          | failed ↦ (s', some (err io))
        ]
  ]

  abbrev pub read_payload : Option Bytes → S → S × Pending (Option Bytes)
  read_payload none s = (s, some (ok none))
  read_payload (some len_buf) s = elim (decode_len_prefix len_buf) [
    | err e ↦ (s, some (err e))
    | ok len ↦ await_ok (socket.read_exact len s) (λ payload s'. (s', some (ok (some payload))))
  ]

  unfoldable pub read_frame_or_eof : ℕ → S → S × Pending (Option Bytes)
  read_frame_or_eof n s = await_ok (read_exact_or_eof n 4 [] s) read_payload

  abbrev pub expect_frame : Option Bytes → S → S × Pending Bytes
  expect_frame none s = (s, some (err io))
  expect_frame (some payload) s = (s, some (ok payload))

  unfoldable pub read_frame : ℕ → S → S × Pending Bytes
  read_frame n s = await_ok (read_frame_or_eof n s) expect_frame

  unfoldable pub write_frame : Bytes → S → S × Pending (Unit {0})
  write_frame payload s = elim (encode_frame payload) [
    | err e ↦ (s, some (err e))
    | ok frame ↦ socket.write_all frame s
  ]

  abbrev pub disposition : Bytes → ResponseDisposition
  disposition [] = no_response
  disposition (b ∷ payload) = response_written

  abbrev pub put_answer :
      Bytes → S × Pending Bytes → S × Bytes × Option (Result TcpSessionError ResponseDisposition)
  put_answer response (s, none) = (s, response, none)
  put_answer response (s, some (err e)) = (s, response, some (err e))
  put_answer response (s, some (ok payload)) =
      (s, response ++ payload, some (ok (disposition payload)))

  unfoldable pub execute :
      ℕ → Bytes → Bytes → S → S × Bytes × Option (Result TcpSessionError ResponseDisposition)
  execute n request response s =
      put_answer response (await_ok (write_frame request s) (λ done s'. read_frame n s'))

  -- The default of `send`: the answer is discarded.
  abbrev pub discard :
      S × Bytes × Option (Result TcpSessionError ResponseDisposition) → S × Pending (Unit {0})
  discard (s, response, none) = (s, none)
  discard (s, response, some (err e)) = (s, some (err e))
  discard (s, response, some (ok disposition)) = (s, some (ok tt))

  unfoldable pub tcp_cat_session : ℕ → CatSession S TcpSessionError
  tcp_cat_session n = record {
    execute = execute n;
    send = λ request s. discard (execute n request [] s);
  }
