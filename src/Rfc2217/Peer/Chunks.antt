-- ===== src/Rfc2217/Peer/Chunks.antt =====
-- What a peer does depends on the bytes that its client sent, not on how the network cut them.
use mathlib.Core.List.{flatten}
use radio_cat_rs.Base.{
  ℕ, ◌≡◌, refl, sym, ap, ◌∙◌, List, [], ◌∷◌, ◌++◌, map, append-nil, append_assoc, arith,
}
use radio_cat_rs.Base.Bytes.{Bytes}
use radio_cat_rs.Rfc2217.Decoder
use radio_cat_rs.Rfc2217.Decoder.{
  Event, data_run, com_port, negotiate, other_subnegotiation, State, plain, after_iac, verb,
  sub_option, sub_body, sub_iac, Decoder,
}
use radio_cat_rs.Rfc2217.Decoder.Stream.{
  Token, byte, control, tokens, Stream, start, view, next_in, next, next-append, view-push,
  run-push,
}
use radio_cat_rs.Rfc2217.Peer.{PeerEvent, Rfc2217Peer, Turn, handle_event, handle_events, push, new}
use radio_cat_rs.Rfc2217.Peer.Outcome.{
  PeerToken, peer_tokens, peer_tokens-append, Outcome, outcome, quiet, act, acts, acts-append,
  acts_bytes, handle_event_frame,
}

outcome-handle_event :
    (e : Event) (t : Turn) → outcome (handle_event e t) ≡ act (control e) (outcome t)
outcome-handle_event e t =
    ap outcome (handle_event_frame e t)
    ∙ ap (λ told. record (act (control e) (outcome t)) { told = told })
        (peer_tokens-append t.events (handle_event e (quiet t.lines)).events)

outcome_data :
    (bs : Bytes) (t : Turn)
    → outcome (handle_event (data_run bs) t) ≡ acts (map byte bs) (outcome t)
outcome_data bs t =
    outcome-handle_event (data_run bs) t
    ∙ unfold handle_event in rw (acts_bytes, append-nil) (rw append-nil)

outcome-handle_events :
    (es : List Event) (t : Turn) → outcome (handle_events es t) ≡ acts (tokens es) (outcome t)
unfolding handle_events acts
outcome-handle_events [] t = refl
outcome-handle_events (data_run bs ∷ es) t =
    outcome-handle_events es (handle_event (data_run bs) t)
    ∙ ap (acts (tokens es)) (outcome_data bs t)
    ∙ sym (acts-append (map byte bs) (tokens es) (outcome t))
outcome-handle_events (negotiate v o ∷ es) t =
    outcome-handle_events es (handle_event (negotiate v o) t)
    ∙ ap (acts (tokens es)) (outcome-handle_event (negotiate v o) t)
outcome-handle_events (com_port c p ∷ es) t =
    outcome-handle_events es (handle_event (com_port c p) t)
    ∙ ap (acts (tokens es)) (outcome-handle_event (com_port c p) t)
outcome-handle_events (other_subnegotiation o b ∷ es) t =
    outcome-handle_events es (handle_event (other_subnegotiation o b) t)
    ∙ ap (acts (tokens es)) (outcome-handle_event (other_subnegotiation o b) t)

-- Tokens that were seen before do not matter to the machine.
abbrev behind : List Token → Stream → Stream
behind ts s = record s { seen = ts ++ s.seen }

next_in-behind :
    (m : State) (ts : List Token) (s : Stream) (b : ℕ)
    → next_in m (behind ts s) b ≡ behind ts (next_in m s b)
unfolding next_in
next_in-behind plain ts s b = ground (arith, append_assoc ts s.seen (byte b ∷ []))
next_in-behind after_iac ts s b = ground (arith, append_assoc ts s.seen (byte 255 ∷ []))
next_in-behind (verb v) ts s b = rw append_assoc
next_in-behind sub_option ts s b = refl
next_in-behind sub_body ts s b = ground arith
next_in-behind sub_iac ts s b =
    ground (arith, append_assoc ts s.seen (tokens (Decoder.finished s.option s.body)))

next-behind :
    (bs : Bytes) (ts : List Token) (s : Stream) → next bs (behind ts s) ≡ behind ts (next bs s)
unfolding next
next-behind [] ts s = refl
next-behind (b ∷ bs) ts s =
    ap (next bs) (next_in-behind s.state ts s b) ∙ next-behind bs ts (next_in s.state s b)

-- One `push` for each piece; the events and the replies are collected.
unfoldable pub serve :
    List Bytes → Rfc2217Peer → List PeerEvent → Bytes → Rfc2217Peer × List PeerEvent × Bytes
serve [] p events reply = (p, events, reply)
serve (c ∷ cs) p events reply = let (p', e, r) = push c p in serve cs p' (events ++ e) (reply ++ r)

-- The state that a peer's decoder is in between two pushes.
abbrev core : Decoder → Stream
core d = view (d, [])

tokens-push : (bs : Bytes) (d : Decoder) → tokens (Decoder.push bs d []).1 ≡ (next bs (core d)).seen
tokens-push bs d =
    sym (rw (run-push bs d []) (append-nil (tokens (Decoder.push bs d []).1)))
    ∙ ap (λ (s : Stream). s.seen) (view-push bs d [])

-- One push: the decoder reads on, and the tokens that it sees are acted on.
core-push :
    (bs : Bytes) (p : Rfc2217Peer)
    → next bs (core p.decoder) ≡ behind (next bs (core p.decoder)).seen (core (push bs p).0.decoder)
unfolding push
core-push bs p = ground (
  arith,
  view-push bs p.decoder [],
  run-push bs p.decoder [],
  append-nil (next bs (core p.decoder)).seen,
)

abbrev pub result : Rfc2217Peer × List PeerEvent × Bytes → Outcome
result (p, events, reply) = outcome (record { lines = p.lines; events = events; reply = reply })

result-push :
    (bs : Bytes) (p : Rfc2217Peer)
    → result (push bs p) ≡ acts (next bs (core p.decoder)).seen (outcome (quiet p.lines))
unfolding push
result-push bs p =
    outcome-handle_events (Decoder.push bs p.decoder []).1 (quiet p.lines)
    ∙ ap (λ ts. acts ts (outcome (quiet p.lines))) (tokens-push bs p.decoder)

abbrev prefixed : List PeerToken → Bytes → Outcome → Outcome
prefixed told reply o = record o { told = told ++ o.told; reply = reply ++ o.reply }

act-prefixed :
    (t : Token) (told : List PeerToken) (reply : Bytes) (o : Outcome)
    → act t (prefixed told reply o) ≡ prefixed told reply (act t o)
act-prefixed (byte b) told reply o = rw append_assoc
act-prefixed (control e) told reply o = simp append_assoc

acts-prefixed :
    (ts : List Token) (told : List PeerToken) (reply : Bytes) (o : Outcome)
    → acts ts (prefixed told reply o) ≡ prefixed told reply (acts ts o)
unfolding acts
acts-prefixed [] told reply o = refl
acts-prefixed (t ∷ ts) told reply o =
    ap (acts ts) (act-prefixed t told reply o) ∙ acts-prefixed ts told reply (act t o)

-- One more push behind what was collected.
result-push_after :
    (bs : Bytes) (p : Rfc2217Peer) (events : List PeerEvent) (reply : Bytes)
    → result ((push bs p).0, events ++ (push bs p).1, reply ++ (push bs p).2)
      ≡ acts (next bs (core p.decoder)).seen (result (p, events, reply))
result-push_after bs p events reply =
    rw (peer_tokens-append events (push bs p).1)
      (ap (prefixed (peer_tokens events) reply) (result-push bs p))
    ∙ sym (
        acts-prefixed (next bs (core p.decoder)).seen (peer_tokens events) reply
          (outcome (quiet p.lines)))
    ∙ rw (append-nil (peer_tokens events), append-nil reply)

seen-push :
    (bs rest : Bytes) (p : Rfc2217Peer)
    → (next (bs ++ rest) (core p.decoder)).seen
      ≡ (next bs (core p.decoder)).seen ++ (next rest (core (push bs p).0.decoder)).seen
seen-push bs rest p =
    ap (λ (s : Stream). s.seen)
      (next-append bs rest (core p.decoder)
        ∙ ap (next rest) (core-push bs p)
        ∙ next-behind rest (next bs (core p.decoder)).seen (core (push bs p).0.decoder))

result-serve :
    (cs : List Bytes) (p : Rfc2217Peer) (events : List PeerEvent) (reply : Bytes)
    → p.decoder.run ≡ []
    → result (serve cs p events reply)
      ≡ acts (next (flatten cs) (core p.decoder)).seen (result (p, events, reply))
unfolding serve flatten
result-serve [] p events reply e = rw e (unfold acts next in refl)
result-serve (c ∷ cs) p events reply e =
    result-serve cs (push c p).0 (events ++ (push c p).1) (reply ++ (push c p).2)
      (unfold push in run-push c p.decoder [])
    ∙ ap (acts (next (flatten cs) (core (push c p).0.decoder)).seen)
        (result-push_after c p events reply)
    ∙ sym (
        ap (λ ts. acts ts (result (p, events, reply))) (seen-push c (flatten cs) p)
        ∙ acts-append (next c (core p.decoder)).seen
            (next (flatten cs) (core (push c p).0.decoder)).seen (result (p, events, reply)))

-- A new peer, fed the same client bytes in any two ways, ends with the same lines, mask and last
-- notification, gives the same reply bytes, and tells its host the same data bytes and signals in
-- the same order.
pub serve_chunks :
    (cs ds : List Bytes)
    → flatten cs ≡ flatten ds
    → let (p, events, reply) = serve cs new [] [] in
      let (q, events', reply') = serve ds new [] [] in
      (p.lines ≡ q.lines) × (reply ≡ reply') × (peer_tokens events ≡ peer_tokens events')
serve_chunks cs ds e = (
  ap (λ (o : Outcome). o.lines) same,
  ap (λ (o : Outcome). o.reply) same,
  ap (λ (o : Outcome). o.told) same,
)
  where
    same : result (serve cs new [] []) ≡ result (serve ds new [] [])
    same =
        result-serve cs new [] [] refl
        ∙ ap (λ bs. acts (next bs start).seen (outcome (quiet new.lines))) e
        ∙ sym (result-serve ds new [] [] refl)

-- What a new peer has done once its client's messages have arrived, in any pieces.
pub serve-acts :
    (cs : List Bytes)
    → result (serve cs new [] []) ≡ acts (next (flatten cs) start).seen (outcome (quiet new.lines))
serve-acts cs = result-serve cs new [] [] refl
