-- ===== src/Rfc2217/Peer/Outcome.antt =====
-- What a turn of the peer comes to, token by token.
use radio_cat_rs.Base.{
  ℕ, ◌≡◌, refl, ap, ◌∙◌, List, [], ◌∷◌, ◌++◌, map, append-nil, append_assoc, arith,
}
use radio_cat_rs.Base.Bytes.{Bytes}
use radio_cat_rs.Rfc2217.Decoder.{Event}
use radio_cat_rs.Rfc2217.Decoder.Stream.{Token, byte, control}
use radio_cat_rs.Rfc2217.Peer.{PeerEvent, heard, dtr, rts, break_signal, Lines, Turn, handle_event}

-- Events with runs of data cut into bytes.
pub data PeerToken : Type 0 where
  peer_byte : ℕ → PeerToken
  signal : PeerEvent → PeerToken

abbrev pub peer_tokens : List PeerEvent → List PeerToken
peer_tokens [] = []
peer_tokens (heard bs ∷ es) = map peer_byte bs ++ peer_tokens es
peer_tokens (e ∷ es) = signal e ∷ peer_tokens es

pub peer_tokens-append :
    (xs ys : List PeerEvent) → peer_tokens (xs ++ ys) ≡ peer_tokens xs ++ peer_tokens ys
peer_tokens-append [] ys = refl
peer_tokens-append (heard bs ∷ es) ys = rw (peer_tokens-append es ys, append_assoc)
peer_tokens-append (dtr b ∷ es) ys = ap (◌∷◌ (signal (dtr b))) (peer_tokens-append es ys)
peer_tokens-append (rts b ∷ es) ys = ap (◌∷◌ (signal (rts b))) (peer_tokens-append es ys)
peer_tokens-append (break_signal b ∷ es) ys =
    ap (◌∷◌ (signal (break_signal b))) (peer_tokens-append es ys)

pub record Outcome : Type 0 where
  pub lines : Lines
  pub told : List PeerToken
  pub reply : Bytes

abbrev pub outcome : Turn → Outcome
outcome t = record { lines = t.lines; told = peer_tokens t.events; reply = t.reply }

abbrev pub quiet : Lines → Turn
quiet l = record { lines = l; events = []; reply = [] }

-- The effect of one token.
abbrev pub act : Token → Outcome → Outcome
act (byte b) o = record o { told = o.told ++ (peer_byte b ∷ []) }
act (control e) o =
    let t = handle_event e (quiet o.lines) in
    record { lines = t.lines; told = o.told ++ peer_tokens t.events; reply = o.reply ++ t.reply }

unfoldable pub acts : List Token → Outcome → Outcome
acts [] o = o
acts (t ∷ ts) o = acts ts (act t o)

pub acts-append : (xs ys : List Token) (o : Outcome) → acts (xs ++ ys) o ≡ acts ys (acts xs o)
unfolding acts
acts-append [] ys o = refl
acts-append (x ∷ xs) ys o = acts-append xs ys (act x o)

pub acts_bytes :
    (bs : Bytes) (o : Outcome)
    → acts (map byte bs) o ≡ record o { told = o.told ++ map peer_byte bs }
unfolding acts
acts_bytes [] o = rw append-nil
acts_bytes (b ∷ bs) o =
    acts_bytes bs (record o { told = o.told ++ (peer_byte b ∷ []) }) ∙ rw append_assoc

-- A handler only appends, and what it appends depends on the lines.
pub handle_event_frame :
    (e : Event) (t : Turn)
    → let h = handle_event e (quiet t.lines) in
      handle_event e t
      ≡ record { lines = h.lines; events = t.events ++ h.events; reply = t.reply ++ h.reply }
unfolding handle_event
handle_event_frame (Event.data_run bs) t = ground (arith, append-nil t.reply)
handle_event_frame (Event.negotiate v o) t = ground (arith, append-nil t.reply, append-nil t.events)
handle_event_frame (Event.com_port c []) t = ground (arith, append-nil t.reply, append-nil t.events)
handle_event_frame (Event.com_port c (p ∷ ps)) t =
    ground (arith, append-nil t.reply, append-nil t.events)
handle_event_frame (Event.other_subnegotiation o b) t =
    ground (arith, append-nil t.reply, append-nil t.events)
