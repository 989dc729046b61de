-- ===== src/Rfc2217/Decoder/Stream.antt =====
-- The decoder without its buffering: a machine that puts out one token for each data byte. What a
-- `Decoder` has put out and still holds is read as such tokens, and each call refines this machine.
use radio_cat_rs.Base.{
  ℕ, ◌||◌, ◌≡◌, refl, ap, ◌∙◌, List, [], ◌∷◌, ◌++◌, map, append-nil, append_assoc, ◌==◌,
  if◌then◌else◌, arith,
}
use mathlib.Core.List.{map-append}
use radio_cat_rs.Base.Bytes.{Bytes}
use radio_cat_rs.Rfc2217.Codec.{iac, se, sb, will, wont, do_verb, dont}
use radio_cat_rs.Rfc2217.Decoder.{
  Event, data_run, com_port, negotiate, other_subnegotiation, State, plain, after_iac, verb,
  sub_option, sub_body, sub_iac, Decoder, Out, flush_data, finished, step_in, steps, push,
}

pub data Token : Type 0 where
  byte : ℕ → Token
  control : Event → Token

abbrev pub tokens : List Event → List Token
tokens [] = []
tokens (data_run bs ∷ es) = map byte bs ++ tokens es
tokens (e ∷ es) = control e ∷ tokens es

pub tokens-append : (xs ys : List Event) → tokens (xs ++ ys) ≡ tokens xs ++ tokens ys
tokens-append [] ys = refl
tokens-append (data_run bs ∷ es) ys = rw (tokens-append es ys, append_assoc)
tokens-append (com_port c p ∷ es) ys = ap (◌∷◌ (control (com_port c p))) (tokens-append es ys)
tokens-append (negotiate v o ∷ es) ys = ap (◌∷◌ (control (negotiate v o))) (tokens-append es ys)
tokens-append (other_subnegotiation o b ∷ es) ys =
    ap (◌∷◌ (control (other_subnegotiation o b))) (tokens-append es ys)

pub record Stream : Type 0 where
  pub state : State
  pub option : ℕ
  pub body : Bytes
  pub seen : List Token

abbrev pub start : Stream
start = record { state = plain; option = 0; body = []; seen = [] }

abbrev pub view : Out → Stream
view (d, out) = record {
  state = d.state;
  option = d.option;
  body = d.body;
  seen = tokens out ++ map byte d.run;
}

abbrev emit : Stream → List Token → Stream
emit s ts = record s { seen = s.seen ++ ts; state = plain }

unfoldable pub next_in : State → Stream → ℕ → Stream
next_in plain s b =
    if b == iac then record s { state = after_iac } else record s { seen = s.seen ++ byte b ∷ [] }
next_in after_iac s b =
    if b == iac
    then emit s (byte iac ∷ [])
    else if b == will || b == wont || b == do_verb || b == dont
    then record s { state = verb b }
    else if b == sb
    then record s { state = sub_option }
    else record s { state = plain }
next_in (verb v) s b = emit s (control (negotiate v b) ∷ [])
next_in sub_option s b = record s { option = b; body = []; state = sub_body }
next_in sub_body s b =
    if b == iac then record s { state = sub_iac } else record s { body = s.body ++ (b ∷ []) }
next_in sub_iac s b =
    if b == iac
    then record s { body = s.body ++ (iac ∷ []); state = sub_body }
    else if b == se
    then emit (record s { body = [] }) (tokens (finished s.option s.body))
    else record s { body = []; state = plain }

unfoldable pub next : Bytes → Stream → Stream
unfolding next_in
next [] s = s
next (b ∷ bs) s = next bs (next_in s.state s b)

pub next-append : (xs ys : Bytes) (s : Stream) → next (xs ++ ys) s ≡ next ys (next xs s)
unfolding next
next-append [] ys s = refl
next-append (x ∷ xs) ys s = next-append xs ys (next_in s.state s x)

run-flush_data : (d : Decoder) (out : List Event) → (flush_data d out).0 ≡ record d { run = [] }
unfolding flush_data
run-flush_data d out = ground arith

-- Flushing moves bytes from the run to the output and changes no token.
tokens-flush_data :
    (d : Decoder) (out : List Event) → tokens (flush_data d out).1 ≡ tokens out ++ map byte d.run
unfolding flush_data
tokens-flush_data d out = go d.run refl
  where
    go : (r : Bytes) → d.run ≡ r → tokens (flush_data d out).1 ≡ tokens out ++ map byte d.run
    go [] e = rw e (rw append-nil)
    go (x ∷ r) e = rw e (simp (tokens-append, append-nil))

view-flush_data : (d : Decoder) (out : List Event) → view (flush_data d out) ≡ view (d, out)
view-flush_data d out = simp (run-flush_data, tokens-flush_data, append-nil)

ruleset flushing = (run-flush_data, tokens-flush_data, tokens-append, append-nil, append_assoc)

seen_push :
    (d : Decoder) (out : List Event) (b : ℕ)
    → tokens out ++ map byte (d.run ++ (b ∷ [])) ≡ tokens out ++ map byte d.run ++ (byte b ∷ [])
seen_push d out b = simp (map-append, append_assoc)

-- One byte: the decoder does what the machine does to the tokens.
view-step_in :
    (m : State) (d : Decoder) (out : List Event) (b : ℕ)
    → view (step_in m d out b) ≡ next_in m (view (d, out)) b
unfolding step_in next_in
view-step_in plain d out b = ground (arith, seen_push d out b)
view-step_in after_iac d out b = ground (arith, seen_push d out iac)
view-step_in (verb v) d out b = simp flushing
view-step_in sub_option d out b = refl
view-step_in sub_body d out b = ground arith
view-step_in sub_iac d out b = ground (arith, finishing)
  where
    finishing :
        view (
          record (flush_data d out).0 { body = []; state = plain },
          (flush_data d out).1 ++ finished (flush_data d out).0.option (flush_data d out).0.body,
        )
        ≡ emit (record (view (d, out)) { body = [] }) (tokens (finished d.option d.body))
    finishing = simp flushing

view-steps :
    (bs : Bytes) (d : Decoder) (out : List Event) → view (steps bs d out) ≡ next bs (view (d, out))
unfolding steps next
view-steps [] d out = refl
view-steps (b ∷ bs) d out =
    view-steps bs (step_in d.state d out b).0 (step_in d.state d out b).1
    ∙ ap (next bs) (view-step_in d.state d out b)

-- A call of `push`: the same tokens as the machine's, however the bytes were held before.
pub view-push :
    (bs : Bytes) (d : Decoder) (out : List Event) → view (push bs d out) ≡ next bs (view (d, out))
unfolding push
view-push bs d out = view-flush_data (steps bs d out).0 (steps bs d out).1 ∙ view-steps bs d out

pub run-push : (bs : Bytes) (d : Decoder) (out : List Event) → (push bs d out).0.run ≡ []
unfolding push
run-push bs d out =
    ap (λ (d : Decoder). d.run) (run-flush_data (steps bs d out).0 (steps bs d out).1)
