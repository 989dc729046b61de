-- ===== src/Udp/Tests.antt =====
-- The envelope, the session and the server's cache at concrete inputs.
use radio_cat_rs.Base.{ℕ, true, ◌≡◌, refl, some, List, [], ◌∷◌, ◌++◌, ok, err, All, arith}
use radio_cat_rs.Base.Bytes.{Bytes}
use radio_cat_rs.Udp.Codec
use radio_cat_rs.Udp.Codec.{
  encode_envelope, decode_envelope, max_datagram_size, remember_completed, is_known_duplicate,
}
use radio_cat_rs.Udp.Session
use radio_cat_rs.Udp.Session.{
  UdpCatSession, Arrival, datagram, accept, execute, finished, remember, advance, next_id,
  disposition, wait,
}
use radio_cat_rs.Udp.Session.Answers.{IsNoise, Answered}
use radio_cat_rs.Udp.Session.Execute.{execute_takes_answer, execute-Answered}
use radio_cat_rs.Udp.ServerDedup
use radio_cat_rs.Udp.ServerDedup.{Key, DedupCache, key_eq, get, insert}
use radio_cat_rs.Udp.ServerDedup.Insert.{get-insert}

abbrev if_query : Bytes
if_query = b'I' ∷ b'F' ∷ b';' ∷ []

abbrev envelope : ℕ → Bytes → Bytes
envelope request_id payload =
    0 ∷ 0 ∷ 0 ∷ 0 ∷ 0 ∷ 0 ∷ 0 ∷ 9 ∷ 0 ∷ 0 ∷ 0 ∷ 0 ∷ 0 ∷ 0 ∷ 0 ∷ request_id ∷ payload

abbrev session : UdpCatSession
session = Session.new 77 9 2000

-- A datagram of another host, one too short, and the answer to an earlier request.
abbrev noise : List Arrival
noise = datagram 78 (envelope 1 []) ∷ datagram 77 (1 ∷ []) ∷ datagram 77 (envelope 0 (65 ∷ [])) ∷ []

noise_quiet : All (IsNoise (advance session) (next_id session)) noise
unfolding accept decode_envelope
noise_quiet = (refl, (refl, (refl, tt)))

query_sent : encode_envelope 9 1 if_query ≡ ok (envelope 1 if_query)
unfolding encode_envelope
query_sent = refl

answer_sent : encode_envelope 9 1 (b'O' ∷ []) ≡ ok (envelope 1 (b'O' ∷ []))
unfolding encode_envelope
answer_sent = refl

abbrev arrivals : List Arrival
arrivals = noise ++ (datagram 77 (envelope 1 (b'O' ∷ [])) ∷ Session.elapsed ∷ [])

execute_takes_answer_example :
    execute session if_query true arrivals []
    ≡ finished
        (remember (advance session) (next_id session))
        (envelope 1 if_query)
        (b'O' ∷ [])
        (ok Session.response_written)
        (Session.elapsed ∷ [])
execute_takes_answer_example =
    execute_takes_answer session if_query [] (envelope 1 if_query) (envelope 1 (b'O' ∷ []))
      (b'O' ∷ []) noise (Session.elapsed ∷ []) (omega arith) (omega arith) query_sent answer_sent
      noise_quiet

answered : (execute session if_query true arrivals []).result ≡ some (ok Session.response_written)
unfolding execute wait accept decode_envelope encode_envelope
answered = refl

execute-Answered_example :
    Answered
      (advance session)
      (next_id session)
      []
      arrivals
      Session.response_written
      (execute session if_query true arrivals [])
execute-Answered_example =
    execute-Answered session if_query [] true arrivals Session.response_written answered

-- The answer never came.
execute_times_out :
    (execute session if_query true (Session.elapsed ∷ []) []).result
    ≡ some (err (Codec.timeout 77 2000))
unfolding execute wait encode_envelope
execute_times_out = refl

abbrev key : ℕ → Key
key request_id = record { peer = 77; session_id = 9; request_id = request_id }

get-insert_example : get (key 1) (insert (key 1) if_query ServerDedup.new) ≡ some if_query
get-insert_example = get-insert (key 1) if_query ServerDedup.new
