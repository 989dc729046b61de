-- ===== src/Rfc2217/Peer/Replies.antt =====
-- What a peer writes back, read as messages.
use mathlib.Core.List.{flatten}
use radio_cat_rs.Base.{
  ℕ, ◌+◌, Bool, ◌≡◌, refl, sym, ap, ◌∙◌, List, [], ◌∷◌, ◌++◌, append-nil, append_assoc, arith,
  if◌then◌else◌, ◌==◌, All, ◌||◌, Option, none, some,
}
use radio_cat_rs.Base.Bytes.{Bytes}
use radio_cat_rs.Rfc2217.Codec.Client
use radio_cat_rs.Rfc2217.Codec.Server
use radio_cat_rs.Rfc2217.Codec.Control
use radio_cat_rs.Rfc2217.Decoder
use radio_cat_rs.Rfc2217.Decoder.{Event, data_run, com_port, negotiate, other_subnegotiation}
use radio_cat_rs.Rfc2217.Decoder.Stream.{Token, byte, control, tokens, next, start}
use radio_cat_rs.Rfc2217.Decoder.Chunks.{feed}
use radio_cat_rs.Rfc2217.Decoder.RoundTrip.{
  Message, negotiation, command, IsSendable, encode, wire, meanings, feed-wire,
}
use radio_cat_rs.Rfc2217.Peer.{Lines, answer_verb, handle_event, new}
use radio_cat_rs.Rfc2217.Peer.Outcome.{Outcome, outcome, quiet, act, acts}
use radio_cat_rs.Rfc2217.Peer.Chunks.{serve, serve-acts}

wire-append : (xs ys : List Message) → wire (xs ++ ys) ≡ wire xs ++ wire ys
wire-append [] ys = refl
wire-append (x ∷ xs) ys =
    ap (◌++◌ (encode x)) (wire-append xs ys) ∙ sym (append_assoc (encode x) (wire xs) (wire ys))

All-append :
    (xs ys : List Message) → All IsSendable xs → All IsSendable ys → All IsSendable (xs ++ ys)
All-append [] ys hx hy = hy
All-append (x ∷ xs) ys hx hy = (hx.0, All-append xs ys hx.1 hy)

-- The value of the SET-CONTROL answer.
abbrev control_value : ℕ → Lines → ℕ
control_value value l =
    if value == Control.dtr_on
      || value == Control.dtr_off
      || value == Control.rts_on
      || value == Control.rts_off
      || value == Control.break_on
      || value == Control.break_off
    then value
    else if value == Control.dtr_request
    then (if l.dtr then Control.dtr_on else Control.dtr_off)
    else if value == Control.rts_request
    then (if l.rts then Control.rts_on else Control.rts_off)
    else Control.flow_none

abbrev confirmed : ℕ → Bool
confirmed c =
    c == Client.set_baudrate
    || c == Client.set_datasize
    || c == Client.set_parity
    || c == Client.set_stopsize
    || c == Client.signature

abbrev answer_com_port : ℕ → Bytes → Lines → Option Message
answer_com_port c [] l = if confirmed c then some (command (c + 100) []) else none
answer_com_port c (value ∷ rest) l =
    if c == Client.set_control
    then some (command Server.set_control (control_value value l ∷ []))
    else if c == Client.set_modemstate_mask
    then some (command Server.set_modemstate_mask (value ∷ []))
    else if confirmed c
    then some (command (c + 100) (value ∷ rest))
    else none

-- The message with which a peer answers an event, if it does.
abbrev answer : Event → Lines → Option Message
answer (data_run bs) l = none
answer (negotiate v o) l = elim (answer_verb v o) [ none ↦ none | some a ↦ some (negotiation a o) ]
answer (com_port c params) l = answer_com_port c params l
answer (other_subnegotiation o b) l = none

abbrev encoded_answer : Option Message → Bytes
encoded_answer none = []
encoded_answer (some m) = encode m

abbrev IsSendableAnswer : Option Message → Type 0
IsSendableAnswer none = Unit
IsSendableAnswer (some m) = IsSendable m

answer-IsSendable : (e : Event) (l : Lines) → IsSendableAnswer (answer e l)
unfolding answer_verb
answer-IsSendable (data_run bs) l = tt
answer-IsSendable (negotiate v o) l = ground arith
answer-IsSendable (com_port c []) l = ground arith
answer-IsSendable (com_port c (value ∷ rest)) l = ground arith
answer-IsSendable (other_subnegotiation o b) l = tt

reply-handle_event :
    (e : Event) (l : Lines) → (handle_event e (quiet l)).reply ≡ encoded_answer (answer e l)
unfolding handle_event
reply-handle_event (data_run bs) l = refl
reply-handle_event (negotiate v o) l = ground arith
reply-handle_event (com_port c []) l = ground arith
reply-handle_event (com_port c (value ∷ rest)) l = ground arith
reply-handle_event (other_subnegotiation o b) l = refl

-- The messages with which a peer on these lines answers what a decoder reports, in order.
abbrev as_list : Option Message → List Message
as_list none = []
as_list (some m) = m ∷ []

unfoldable pub answers : List Token → Lines → List Message
answers [] l = []
answers (byte b ∷ ts) l = answers ts l
answers (control e ∷ ts) l = as_list (answer e l) ++ answers ts (handle_event e (quiet l)).lines

wire-as_list : (a : Option Message) → encoded_answer a ≡ wire (as_list a)
wire-as_list none = refl
wire-as_list (some m) = sym (append-nil (encode m))

as_list-IsSendable : (a : Option Message) → IsSendableAnswer a → All IsSendable (as_list a)
as_list-IsSendable none h = tt
as_list-IsSendable (some m) h = (h, tt)

answers-IsSendable : (ts : List Token) (l : Lines) → All IsSendable (answers ts l)
unfolding answers
answers-IsSendable [] l = tt
answers-IsSendable (byte b ∷ ts) l = answers-IsSendable ts l
answers-IsSendable (control e ∷ ts) l =
    let after = (handle_event e (quiet l)).lines in
    All-append (as_list (answer e l)) (answers ts after)
      (as_list-IsSendable (answer e l) (answer-IsSendable e l)) (answers-IsSendable ts after)

acts-answers :
    (ts : List Token) (o : Outcome) → (acts ts o).reply ≡ o.reply ++ wire (answers ts o.lines)
unfolding acts answers
acts-answers [] o = sym (append-nil o.reply)
acts-answers (byte b ∷ ts) o = acts-answers ts (act (byte b) o)
acts-answers (control e ∷ ts) o =
    let said = (handle_event e (quiet o.lines)).reply in
    let rest = answers ts (handle_event e (quiet o.lines)).lines in
    acts-answers ts (act (control e) o)
    ∙ append_assoc o.reply said (wire rest)
    ∙ ap (λ (bs : Bytes). o.reply ++ (bs ++ wire rest))
        (reply-handle_event e o.lines ∙ wire-as_list (answer e o.lines))
    ∙ ap (◌++◌ o.reply) (sym (wire-append (as_list (answer e o.lines)) rest))

-- Whatever bytes a client sends, in any pieces: the replies of a new peer are the wire of the answers to
-- what those bytes decode to, in order and nothing else; and however they are cut on the way back,
-- the client's decoder reports just those answers, and ends between messages with nothing half read.
pub serve_reply :
    (cs ds : List Bytes)
    → flatten ds ≡ (serve cs new [] []).2
    → let ms = answers (next (flatten cs) start).seen new.lines in
      ((serve cs new [] []).2 ≡ wire ms)
      × (tokens (feed ds Decoder.new []).1 ≡ meanings ms)
      × ((feed ds Decoder.new []).0.state ≡ Decoder.plain)
serve_reply cs ds e =
    let seen = (next (flatten cs) start).seen in
    let said =
      ap (λ (o : Outcome). o.reply) (serve-acts cs)
      ∙ acts-answers seen (outcome (quiet new.lines)) in
    let back =
      feed-wire (answers seen new.lines) ds (answers-IsSendable seen new.lines) (e ∙ said) in
    (said, back.0, back.1)
