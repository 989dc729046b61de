-- ===== src/Rfc2217/Decoder/RoundTrip.antt =====
-- Each lemma runs the machine of `Stream` over one piece of the wire, with any `rest` behind it.
use mathlib.Core.List.{flatten}
use radio_cat_rs.Base.{
  ℕ, ◌||◌, true, ◌≡◌, ◌≢◌, refl, sym, ap, ◌∙◌, List, [], ◌∷◌, ◌++◌, map, append-nil, append_assoc,
  ◌==◌, if◌then◌else◌, arith, All,
}
use radio_cat_rs.Base.Bytes.{Bytes}
use radio_cat_rs.Rfc2217.Codec.{
  iac, se, sb, will, wont, do_verb, dont, opt_com_port, escape, encode_data, negotiate, com_port,
}
use radio_cat_rs.Rfc2217.Decoder.{Event, plain, sub_body, finished, new}
use radio_cat_rs.Rfc2217.Decoder.Stream.{Token, byte, control, tokens, Stream, start, next}
use radio_cat_rs.Rfc2217.Decoder.Chunks.{feed, tokens-feed, view-feed}

abbrev escaped_byte : ℕ → Bytes
escaped_byte b = if b == iac then iac ∷ iac ∷ [] else b ∷ []

abbrev escaped : Bytes → Bytes
escaped [] = []
escaped (b ∷ bs) = escaped_byte b ++ escaped bs

escape-escaped : (bs out : Bytes) → escape bs out ≡ out ++ escaped bs
unfolding escape
escape-escaped [] out = sym (append-nil out)
escape-escaped (b ∷ bs) out = ground (
  arith,
  escape-escaped bs (out ++ (b ∷ []) ++ (iac ∷ [])),
  escape-escaped bs (out ++ (b ∷ [])),
  append_assoc out (b ∷ []) (iac ∷ []),
  append_assoc out (b ∷ iac ∷ []) (escaped bs),
  append_assoc out (b ∷ []) (escaped bs),
)

next-escaped_byte_data :
    (b : ℕ) (rest : Bytes) (s : Stream)
    → s.state ≡ plain
    → next (escaped_byte b ++ rest) s ≡ next rest (record s { seen = s.seen ++ (byte b ∷ []) })
unfolding next
next-escaped_byte_data b rest s e = ground arith

next-escaped_byte_body :
    (b : ℕ) (rest : Bytes) (s : Stream)
    → s.state ≡ sub_body
    → next (escaped_byte b ++ rest) s ≡ next rest (record s { body = s.body ++ (b ∷ []) })
unfolding next
next-escaped_byte_body b rest s e = ground arith

next-escaped_data :
    (bs rest : Bytes) (s : Stream)
    → s.state ≡ plain
    → next (escaped bs ++ rest) s ≡ next rest (record s { seen = s.seen ++ map byte bs })
next-escaped_data [] rest s e = rw append-nil
next-escaped_data (b ∷ bs) rest s e =
    ap (λ w. next w s) (append_assoc (escaped_byte b) (escaped bs) rest)
    ∙ next-escaped_byte_data b (escaped bs ++ rest) s e
    ∙ next-escaped_data bs rest (record s { seen = s.seen ++ (byte b ∷ []) }) e
    ∙ rw append_assoc

next-escaped_body :
    (bs rest : Bytes) (s : Stream)
    → s.state ≡ sub_body
    → next (escaped bs ++ rest) s ≡ next rest (record s { body = s.body ++ bs })
next-escaped_body [] rest s e = rw append-nil
next-escaped_body (b ∷ bs) rest s e =
    ap (λ w. next w s) (append_assoc (escaped_byte b) (escaped bs) rest)
    ∙ next-escaped_byte_body b (escaped bs ++ rest) s e
    ∙ next-escaped_body bs rest (record s { body = s.body ++ (b ∷ []) }) e
    ∙ rw append_assoc

-- What one end may send: data, a negotiation, a Com Port command with its parameters.
pub data Message : Type 0 where
  payload : Bytes → Message
  negotiation : ℕ → ℕ → Message
  command : ℕ → Bytes → Message

abbrev pub IsVerb : ℕ → Type 0
IsVerb v = (v == will || v == wont || v == do_verb || v == dont) ≡ true

-- The escaping covers data and parameters; the command byte of `com_port` is sent as it is.
abbrev pub IsSendable : Message → Type 0
IsSendable (payload bs) = Unit
IsSendable (negotiation v o) = IsVerb v
IsSendable (command c params) = c ≢ iac

abbrev pub encode : Message → Bytes
encode (payload bs) = encode_data bs
encode (negotiation v o) = negotiate v o
encode (command c params) = com_port c params

abbrev pub wire : List Message → Bytes
wire [] = []
wire (m ∷ ms) = encode m ++ wire ms

abbrev pub meaning : Message → List Token
meaning (payload bs) = map byte bs
meaning (negotiation v o) = control (Event.negotiate v o) ∷ []
meaning (command c params) = control (Event.com_port c params) ∷ []

abbrev pub meanings : List Message → List Token
meanings [] = []
meanings (m ∷ ms) = meaning m ++ meanings ms

-- The machine reads `w` down to `rest`, sees `ts`, and is then between messages.
record Reads (s : Stream) (w rest : Bytes) (ts : List Token) : Type 0 where
  after : Stream
  runs : next w s ≡ next rest after
  between : after.state ≡ plain
  saw : after.seen ≡ s.seen ++ ts

next-negotiate :
    (s : Stream) (v o : ℕ) (rest : Bytes)
    → s.state ≡ plain
    → IsVerb v
    → next (iac ∷ v ∷ o ∷ rest) s
      ≡ next rest
          (record s { state = plain; seen = s.seen ++ (control (Event.negotiate v o) ∷ []) })
unfolding next
next-negotiate s v o rest e h = ground arith

next_open :
    (s : Stream) (c : ℕ) (rest : Bytes)
    → s.state ≡ plain
    → c ≢ iac
    → next (iac ∷ sb ∷ opt_com_port ∷ c ∷ rest) s
      ≡ next rest (record s { state = sub_body; option = opt_com_port; body = c ∷ [] })
unfolding next
next_open s c rest e h = ground arith

next_close :
    (s : Stream) (c : ℕ) (params rest : Bytes)
    → s.state ≡ sub_body
    → s.option ≡ opt_com_port
    → s.body ≡ c ∷ params
    → next (iac ∷ se ∷ rest) s
      ≡ next rest (record s {
        state = plain;
        body = [];
        seen = s.seen ++ (control (Event.com_port c params) ∷ []);
      })
unfolding next finished
next_close s c params rest e o b = ground arith

next-com_port :
    (s : Stream) (c : ℕ) (params rest : Bytes)
    → s.state ≡ plain
    → c ≢ iac
    → next (com_port c params ++ rest) s
      ≡ next rest (record s {
        state = plain;
        option = opt_com_port;
        body = [];
        seen = s.seen ++ (control (Event.com_port c params) ∷ []);
      })
unfolding com_port
next-com_port s c params rest e h =
    ap (λ w. next (w ++ (iac ∷ se ∷ []) ++ rest) s)
      (escape-escaped params (iac ∷ sb ∷ opt_com_port ∷ c ∷ []))
    ∙ ap (λ w. next (iac ∷ sb ∷ opt_com_port ∷ c ∷ w) s)
        (append_assoc (escaped params) (iac ∷ se ∷ []) rest)
    ∙ next_open s c (escaped params ++ (iac ∷ se ∷ rest)) e h
    ∙ next-escaped_body params (iac ∷ se ∷ rest)
        (record s { state = sub_body; option = opt_com_port; body = c ∷ [] }) refl
    ∙ next_close (record s { state = sub_body; option = opt_com_port; body = c ∷ params }) c params
        rest refl refl refl

next-encode :
    (m : Message) (rest : Bytes) (s : Stream)
    → IsSendable m
    → s.state ≡ plain
    → Reads s (encode m ++ rest) rest (meaning m)
unfolding encode_data negotiate
next-encode (payload bs) rest s v e = record {
  after = record s { seen = s.seen ++ map byte bs };
  runs = ap (λ w. next (w ++ rest) s) (escape-escaped bs []) ∙ next-escaped_data bs rest s e;
  between = e;
  saw = refl;
}
next-encode (negotiation w o) rest s v e = record {
  after = record s { state = plain; seen = s.seen ++ (control (Event.negotiate w o) ∷ []) };
  runs = next-negotiate s w o rest e v;
  between = refl;
  saw = refl;
}
next-encode (command c params) rest s v e = record {
  after = record s {
    state = plain;
    option = opt_com_port;
    body = [];
    seen = s.seen ++ (control (Event.com_port c params) ∷ []);
  };
  runs = next-com_port s c params rest e v;
  between = refl;
  saw = refl;
}

pub next-wire :
    (ms : List Message) (s : Stream)
    → All IsSendable ms
    → s.state ≡ plain
    → (next (wire ms) s).seen ≡ s.seen ++ meanings ms
unfolding next
next-wire [] s v e = sym (append-nil s.seen)
next-wire (m ∷ ms) s v e =
    let r = next-encode m (wire ms) s v.0 e in
    ap (λ (t : Stream). t.seen) r.runs
    ∙ next-wire ms r.after v.1 r.between
    ∙ ap (λ seen. seen ++ meanings ms) r.saw
    ∙ append_assoc s.seen (meaning m) (meanings ms)

state-next-wire :
    (ms : List Message) (s : Stream)
    → All IsSendable ms
    → s.state ≡ plain
    → (next (wire ms) s).state ≡ plain
unfolding next
state-next-wire [] s v e = e
state-next-wire (m ∷ ms) s v e =
    let r = next-encode m (wire ms) s v.0 e in
    ap (λ (t : Stream). t.state) r.runs ∙ state-next-wire ms r.after v.1 r.between

-- What one end encodes the other end decodes: for any messages whose negotiations carry one of the
-- four verbs and whose Com Port commands are not 255, and however the network cuts their wire bytes,
-- a fresh decoder reports the same data bytes, negotiations and commands, in order, and nothing else,
-- and ends in its data state.
pub feed-wire :
    (ms : List Message) (cs : List Bytes)
    → All IsSendable ms
    → flatten cs ≡ wire ms
    → (tokens (feed cs new []).1 ≡ meanings ms) × ((feed cs new []).0.state ≡ plain)
feed-wire ms cs v e = (
  tokens-feed cs ∙ ap (λ w. (next w start).seen) e ∙ next-wire ms start v refl,
  ap (λ (s : Stream). s.state) (view-feed cs new [])
      ∙ ap (λ w. (next w start).state) e
      ∙ state-next-wire ms start v refl,
)
