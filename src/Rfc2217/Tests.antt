-- ===== src/Rfc2217/Tests.antt =====
-- The codec, the decoder and the peer at concrete inputs.
use radio_cat_rs.Base.{true, false, ◌≡◌, refl, List, [], ◌∷◌, append-nil, All, arith}
use radio_cat_rs.Base.Bytes.{Bytes}
use mathlib.Core.List.{flatten}
use radio_cat_rs.Rfc2217.Codec.{encode_data, com_port, set_baud_rate}
use radio_cat_rs.Rfc2217.Codec
use radio_cat_rs.Rfc2217.Decoder
use radio_cat_rs.Rfc2217.Decoder.{Event}
use radio_cat_rs.Rfc2217.Decoder.Stream.{tokens, view, next, start}
use radio_cat_rs.Rfc2217.Decoder.Chunks.{feed, feed_chunks}
use radio_cat_rs.Rfc2217.Decoder.RoundTrip.{
  Message, payload, negotiation, command, IsSendable, wire, meanings, feed-wire,
}
use radio_cat_rs.Rfc2217.Peer
use radio_cat_rs.Rfc2217.Peer.{PeerEvent, Lines, modem_state, handle_com_port}
use radio_cat_rs.Rfc2217.Peer.Outcome.{peer_tokens}
use radio_cat_rs.Rfc2217.Peer.Chunks.{serve, serve_chunks}
use radio_cat_rs.Rfc2217.Peer.LineState.{serve_lines}
use radio_cat_rs.Rfc2217.Peer.Replies.{answers, serve_reply}

-- "F", a literal 255, "A".
abbrev data_wire : Bytes
data_wire = 70 ∷ 255 ∷ 255 ∷ 65 ∷ []

encode_data_doubles : encode_data (70 ∷ 255 ∷ 65 ∷ []) ≡ data_wire
unfolding encode_data
encode_data_doubles = refl

set_baud_rate_escapes :
    set_baud_rate 65280 ≡ 255 ∷ 250 ∷ 44 ∷ 1 ∷ 0 ∷ 0 ∷ 255 ∷ 255 ∷ 0 ∷ 255 ∷ 240 ∷ []
unfolding set_baud_rate
set_baud_rate_escapes = refl

push_data : (Decoder.push data_wire Decoder.new []).1 ≡ Event.data_run (70 ∷ 255 ∷ 65 ∷ []) ∷ []
unfolding Decoder.push
push_data = refl

-- The same bytes one at a time: the runs are cut, the bytes are not lost.
feed_data :
    (feed ((70 ∷ []) ∷ (255 ∷ []) ∷ (255 ∷ 65 ∷ []) ∷ []) Decoder.new []).1
    ≡ Event.data_run (70 ∷ []) ∷ Event.data_run (255 ∷ 65 ∷ []) ∷ []
unfolding feed Decoder.push
feed_data = refl

-- An empty Com Port body puts out no event.
push_empty_body : (Decoder.push (255 ∷ 250 ∷ 44 ∷ 255 ∷ 240 ∷ []) Decoder.new []).1 ≡ []
unfolding Decoder.push
push_empty_body = refl

abbrev whole : List Bytes
whole = (65 ∷ 255 ∷ 251 ∷ 44 ∷ 66 ∷ []) ∷ []

abbrev cut : List Bytes
cut = (65 ∷ 255 ∷ []) ∷ [] ∷ (251 ∷ []) ∷ (44 ∷ 66 ∷ []) ∷ []

flatten-cut : flatten whole ≡ flatten cut
unfolding flatten
flatten-cut = refl

feed_chunks_example :
    (tokens (feed whole Decoder.new []).1 ≡ tokens (feed cut Decoder.new []).1)
    × (view (feed whole Decoder.new []) ≡ view (feed cut Decoder.new []))
feed_chunks_example = feed_chunks whole cut flatten-cut

-- Binary both ways, DTR up, a query, DTR down.
abbrev keying : List Message
keying =
    negotiation 251 0
    ∷ command 5 (8 ∷ [])
    ∷ payload (70 ∷ 65 ∷ 255 ∷ 59 ∷ [])
    ∷ command 5 (9 ∷ 255 ∷ [])
    ∷ []

keying-IsSendable : All IsSendable keying
keying-IsSendable = (refl, (omega arith, (tt, (omega arith, tt))))

flatten-keying : flatten (wire keying ∷ []) ≡ wire keying
unfolding flatten encode_data com_port Codec.negotiate
flatten-keying = refl

feed-wire_example :
    (tokens (feed (wire keying ∷ []) Decoder.new []).1 ≡ meanings keying)
    × ((feed (wire keying ∷ []) Decoder.new []).0.state ≡ Decoder.plain)
feed-wire_example = feed-wire keying (wire keying ∷ []) keying-IsSendable flatten-keying

serve_chunks_example :
    let (p, events, reply) = serve whole Peer.new [] [] in
    let (q, events', reply') = serve cut Peer.new [] [] in
    (p.lines ≡ q.lines) × (reply ≡ reply') × (peer_tokens events ≡ peer_tokens events')
serve_chunks_example = serve_chunks whole cut flatten-cut

serve_lines_example :
    let p = (serve (wire keying ∷ []) Peer.new [] []).0 in
    (p.lines.dtr ≡ false) × (p.lines.rts ≡ true)
serve_lines_example = serve_lines keying (wire keying ∷ []) keying-IsSendable flatten-keying

serve_reply_example :
    ((serve cut Peer.new [] []).2 ≡ wire (answers (next (flatten cut) start).seen Peer.new.lines))
    × (tokens (feed ((serve cut Peer.new [] []).2 ∷ []) Decoder.new []).1
        ≡ meanings (answers (next (flatten cut) start).seen Peer.new.lines))
    × ((feed ((serve cut Peer.new [] []).2 ∷ []) Decoder.new []).0.state ≡ Decoder.plain)
unfolding flatten
serve_reply_example =
    serve_reply cut ((serve cut Peer.new [] []).2 ∷ []) (append-nil (serve cut Peer.new [] []).2)
