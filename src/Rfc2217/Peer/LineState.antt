-- ===== src/Rfc2217/Peer/LineState.antt =====
-- The DTR and RTS lines of a peer against what its client asked for. DTR keys a transmitter.
use mathlib.Core.List.{flatten}
use radio_cat_rs.Base.{
  ℕ, Bool, true, false, ◌≡◌, refl, ap, ◌∙◌, List, [], ◌∷◌, map, arith, if◌then◌else◌, ◌==◌, All,
}
use radio_cat_rs.Base.Bytes.{Bytes}
use radio_cat_rs.Rfc2217.Codec.Client
use radio_cat_rs.Rfc2217.Codec.Control
use radio_cat_rs.Rfc2217.Decoder.Stream.{Token, byte, next, start}
use radio_cat_rs.Rfc2217.Decoder.RoundTrip.{
  Message, payload, negotiation, command, IsSendable, wire, meaning, meanings, next-wire,
}
use radio_cat_rs.Rfc2217.Peer.{Lines, handle_event, new}
use radio_cat_rs.Rfc2217.Peer.Outcome.{Outcome, outcome, quiet, act, acts, acts-append}
use radio_cat_rs.Rfc2217.Peer.Chunks.{serve, serve-acts}

-- What a line stands at after a SET-CONTROL value, by the two values that drive it.
abbrev driven : ℕ → ℕ → ℕ → Bool → Bool
driven on off value level = if value == on then true else if value == off then false else level

-- The line after one message: only a SET-CONTROL with a value moves it.
abbrev line_after : ℕ → ℕ → Bool → Message → Bool
line_after on off level (command c (value ∷ rest)) =
    if c == Client.set_control then driven on off value level else level
line_after on off level m = level

abbrev pub dtr_after : Bool → List Message → Bool
dtr_after level [] = level
dtr_after level (m ∷ ms) = dtr_after (line_after Control.dtr_on Control.dtr_off level m) ms

abbrev pub rts_after : Bool → List Message → Bool
rts_after level [] = level
rts_after level (m ∷ ms) = rts_after (line_after Control.rts_on Control.rts_off level m) ms

acts_lines_bytes : (bs : Bytes) (o : Outcome) → (acts (map byte bs) o).lines ≡ o.lines
unfolding acts
acts_lines_bytes [] o = refl
acts_lines_bytes (b ∷ bs) o = acts_lines_bytes bs (act (byte b) o)

message_lines :
    (m : Message) (o : Outcome)
    → ((acts (meaning m) o).lines.dtr ≡ line_after Control.dtr_on Control.dtr_off o.lines.dtr m)
      × ((acts (meaning m) o).lines.rts ≡ line_after Control.rts_on Control.rts_off o.lines.rts m)
unfolding acts handle_event
message_lines (payload bs) o = (
  ap (λ (l : Lines). l.dtr) (acts_lines_bytes bs o),
  ap (λ (l : Lines). l.rts) (acts_lines_bytes bs o),
)
message_lines (negotiation v w) o = ground arith
message_lines (command c []) o = ground arith
message_lines (command c (value ∷ rest)) o = ground arith

meanings_lines :
    (ms : List Message) (o : Outcome)
    → ((acts (meanings ms) o).lines.dtr ≡ dtr_after o.lines.dtr ms)
      × ((acts (meanings ms) o).lines.rts ≡ rts_after o.lines.rts ms)
unfolding acts
meanings_lines [] o = (refl, refl)
meanings_lines (m ∷ ms) o =
    let ih = meanings_lines ms (acts (meaning m) o) in
    let here = message_lines m o in
    let joined = acts-append (meaning m) (meanings ms) o in
    (
      ap (λ (o : Outcome). o.lines.dtr) joined ∙ ih.0 ∙ ap (λ level. dtr_after level ms) here.0,
      ap (λ (o : Outcome). o.lines.rts) joined ∙ ih.1 ∙ ap (λ level. rts_after level ms) here.1,
    )

-- A new peer starts with DTR low and RTS high. Once its client's messages have arrived, cut in any
-- way, DTR and RTS stand where the last SET-CONTROL that drives each of them put it, and a client
-- that never drives them leaves them as they were.
pub serve_lines :
    (ms : List Message) (cs : List Bytes)
    → All IsSendable ms
    → flatten cs ≡ wire ms
    → let p = (serve cs new [] []).0 in
      (p.lines.dtr ≡ dtr_after false ms) × (p.lines.rts ≡ rts_after true ms)
serve_lines ms cs v e =
    let arrived = λ (seen : List Token). acts seen (outcome (quiet new.lines)) in
    let run =
      serve-acts cs ∙ ap arrived (ap (λ w. (next w start).seen) e ∙ next-wire ms start v refl) in
    let lines = meanings_lines ms (outcome (quiet new.lines)) in
    (
      ap (λ (o : Outcome). o.lines.dtr) run ∙ lines.0,
      ap (λ (o : Outcome). o.lines.rts) run ∙ lines.1,
    )
