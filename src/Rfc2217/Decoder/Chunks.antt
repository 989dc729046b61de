-- ===== src/Rfc2217/Decoder/Chunks.antt =====
-- Bytes that arrive in pieces: the pieces in which a network delivers them do not matter.
use radio_cat_rs.Base.{◌≡◌, refl, sym, ap, ◌∙◌, List, [], ◌∷◌, append-nil}
use mathlib.Core.List.{flatten}
use radio_cat_rs.Base.Bytes.{Bytes}
use radio_cat_rs.Rfc2217.Decoder.{Event, Decoder, Out, new, push}
use radio_cat_rs.Rfc2217.Decoder.Stream.{
  tokens, Stream, start, view, next, next-append, view-push, run-push,
}

-- One `push` for each piece, into the same list of events.
unfoldable pub feed : List Bytes → Decoder → List Event → Out
feed [] d out = (d, out)
feed (c ∷ cs) d out = let (d', out') = push c d out in feed cs d' out'

pub view-feed :
    (cs : List Bytes) (d : Decoder) (out : List Event)
    → view (feed cs d out) ≡ next (flatten cs) (view (d, out))
unfolding feed next flatten
view-feed [] d out = refl
view-feed (c ∷ cs) d out =
    view-feed cs (push c d out).0 (push c d out).1
    ∙ ap (next (flatten cs)) (view-push c d out)
    ∙ sym (next-append c (flatten cs) (view (d, out)))

run-feed :
    (cs : List Bytes) (d : Decoder) (out : List Event) → d.run ≡ [] → (feed cs d out).0.run ≡ []
unfolding feed
run-feed [] d out e = e
run-feed (c ∷ cs) d out e = run-feed cs (push c d out).0 (push c d out).1 (run-push c d out)

-- After any number of pushes all that was seen is in the events.
pub tokens-feed : (cs : List Bytes) → tokens (feed cs new []).1 ≡ (next (flatten cs) start).seen
tokens-feed cs =
    sym (rw (run-feed cs new [] refl) (append-nil (tokens (feed cs new []).1)))
    ∙ ap (λ (s : Stream). s.seen) (view-feed cs new [])

-- Two ways to cut the same bytes into pushes give events that differ only in how runs of data
-- bytes are cut: the data bytes and the other events are the same, in the same order, and the
-- decoder is left in the same state.
pub feed_chunks :
    (cs ds : List Bytes)
    → flatten cs ≡ flatten ds
    → (tokens (feed cs new []).1 ≡ tokens (feed ds new []).1)
      × (view (feed cs new []) ≡ view (feed ds new []))
feed_chunks cs ds e = (
  tokens-feed cs ∙ ap (λ bs. (next bs start).seen) e ∙ sym (tokens-feed ds),
  view-feed cs new [] ∙ ap (λ bs. next bs start) e ∙ sym (view-feed ds new []),
)
