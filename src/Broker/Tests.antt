-- ===== src/Broker/Tests.antt =====
-- The broker over a session that keeps what it was given, with one command, `FA`.
use radio_cat_rs.Base.{
  ℕ, ◌≤◌, true, ◌≡◌, refl, none, some, List, [], ◌∷◌, ◌++◌, All, last?, last?-append, ok, arith,
}
use radio_cat_rs.Base.Bytes.{Bytes, bytes_eq}
use radio_cat_rs.Framework.Command.{CommandDefinition, query, set, fixed, supports}
use radio_cat_rs.Framework.WireFormat.{IsIn}
use radio_cat_rs.Framework.Process.{response_written, parse, classify}
use radio_cat_rs.Framework.Ascii
use radio_cat_rs.Framework.Ascii.{ascii_line_format}
use radio_cat_rs.Client
use radio_cat_rs.Client.{CatSession, CatClient}
use radio_cat_rs.Broker.{DispatchError, outcome_to_wire, dispatch, route, call, is_read}
use radio_cat_rs.Broker.Worker.{
  Task, build, submit, release_now_bypassing_queue, perform, serve_queue,
}
use radio_cat_rs.Broker.Laws.{dispatch-Kept}
use radio_cat_rs.Broker.Order.{
  Act, submits, releases, serves, queued, numbers, numbered, apply, run_acts, run_acts_order,
}

abbrev vfo_a : CommandDefinition ℕ Bytes
vfo_a = record {
  id = 7;
  code = b'F' ∷ b'A' ∷ [];
  name = "FA";
  description = "VFO A";
  query_forms = fixed query 0 ∷ [];
  set_forms = fixed set 3 ∷ [];
  action_forms = [];
  response_forms = [];
  readable = true;
  writable = true;
}

-- The session is the list of what it was given; it answers a query with `OK;`.
abbrev logging : CatSession (List Bytes) ℕ
logging = record {
  execute = λ (wire out : Bytes) (log : List Bytes).
      (wire ∷ log, out ++ (b'O' ∷ b'K' ∷ b';' ∷ []), some (ok response_written));
  send = λ (wire : Bytes) (log : List Bytes). (wire ∷ log, some (ok tt));
}

abbrev client : CatClient ℕ Bytes (List Bytes)
client = record { session = []; table = vfo_a ∷ []; format = ascii_line_format }

abbrev query_frame : Bytes
query_frame = b'F' ∷ b'A' ∷ b';' ∷ []

abbrev set_frame : Bytes
set_frame = b'F' ∷ b'A' ∷ b'0' ∷ b'1' ∷ b'4' ∷ b';' ∷ []

abbrev IsFrame : Bytes → Type 0
IsFrame wire = last? wire ≡ some b';'

encode_request-IsFrame : (code params : Bytes) → IsFrame (Ascii.encode_request code params)
unfolding Ascii.encode_request
encode_request-IsFrame code params = last?-append (code ++ params) b';'

dispatch-Kept_example : All IsFrame (dispatch bytes_eq logging set_frame client).0.session
dispatch-Kept_example =
    dispatch-Kept bytes_eq logging (vfo_a ∷ []) ascii_line_format (All IsFrame)
      (λ (d : CommandDefinition ℕ Bytes) (code params : Bytes) (log : List Bytes)
          (found : IsIn d (vfo_a ∷ [])) (same : bytes_eq d.code code ≡ true) (r : d.readable ≡ true)
          (kept : All IsFrame log).
        (encode_request-IsFrame code params, kept))
      (λ (d : CommandDefinition ℕ Bytes) (code params : Bytes) (log : List Bytes)
          (found : IsIn d (vfo_a ∷ [])) (same : bytes_eq d.code code ≡ true) (w : d.writable ≡ true)
          (kept : All IsFrame log).
        (encode_request-IsFrame code params, kept))
      set_frame [] tt

bytes_eq_refl : (bytes : Bytes) → bytes_eq bytes bytes ≡ true
bytes_eq_refl [] = refl
bytes_eq_refl (b ∷ bytes) = ground (arith, bytes_eq_refl bytes)

abbrev display : DispatchError ℕ → Bytes
display e = b'?' ∷ []

abbrev unkey : Task (List Bytes)
unkey log = (log, ok [])

-- Two requests, a refused one, a release in between and a round of the worker.
abbrev acts : List (Act (List Bytes))
acts =
    submits none 1 query_frame
    ∷ submits (some []) 2 set_frame
    ∷ releases 1 unkey
    ∷ submits none 2 set_frame
    ∷ serves
    ∷ []

run_acts_order_example :
    (numbered (run_acts bytes_eq logging display acts (build client true))
      ≡ numbers 0 (queued true acts))
    × ((run_acts bytes_eq logging display acts (build client true)).warnings ≤ 1)
run_acts_order_example = run_acts_order bytes_eq logging bytes_eq_refl display client true acts

acts_answered :
    (run_acts bytes_eq logging display acts (build client true)).replies
    ≡ (0, b'O' ∷ b'K' ∷ b';' ∷ []) ∷ []
unfolding run_acts apply submit release_now_bypassing_queue serve_queue perform dispatch parse
    Ascii.find_command classify supports route is_read outcome_to_wire call Client.query_as
    Client.execute_query_bytes
acts_answered = refl
