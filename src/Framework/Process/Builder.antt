-- ===== src/Framework/Process/Builder.antt =====
-- `ResponseBuilder` under any sequence of calls.
use radio_cat_rs.Base.{
  Bool, true, false, ◌≡◌, refl, ap, ◌∙◌, sym, List, [], ◌∷◌, ◌++◌, Option, some, none, arith,
  append-nil, append_assoc, if◌then◌else◌, Bool-cases, inl, inr,
}
use radio_cat_rs.Base.Bytes.{Bytes}
use radio_cat_rs.Framework.Process.{
  ResponseBuilder, push_bytes, write_frame, push_wire_value, finish, write_complete,
  ends_with_semicolon,
}

pub data Call : Type 0 where
  bytes frame text complete : Bytes → Call
  end : Call

unfoldable pub call : Call → ResponseBuilder → Option ResponseBuilder
unfolding push_bytes write_frame push_wire_value finish write_complete
call (bytes bs) = push_bytes bs
call (frame bs) = write_frame bs
call (text bs) = push_wire_value bs
call (complete bs) = write_complete bs
call end = finish

-- A radio handler's calls in order; one that is refused changes nothing.
unfoldable pub calls : List Call → ResponseBuilder → ResponseBuilder
calls [] b = b
calls (c ∷ cs) b = elim (call c b) [ none ↦ calls cs b | some b' ↦ calls cs b' ]

-- What a call writes, and whether it ends the response.
abbrev pub written : Call → Bytes
written (bytes bs) = bs
written (frame bs) = bs
written (text bs) = bs
written (complete bs) = bs
written end = b';' ∷ []

abbrev pub ends : Call → Bool
ends (bytes bs) = false
ends (frame bs) = true
ends (text bs) = false
ends (complete bs) = ends_with_semicolon bs
ends end = true

-- The calls up to the first that ends the response.
abbrev pub response : List Call → Bytes
response [] = []
response (c ∷ cs) = written c ++ (if ends c then [] else response cs)

call_open :
    (c : Call) (b : ResponseBuilder)
    → b.finished ≡ false
    → call c b ≡ some (record { output = b.output ++ written c; finished = ends c })
unfolding call
call_open (bytes bs) b h = ground arith
call_open (frame bs) b h = ground arith
call_open (text bs) b h = ground arith
call_open (complete bs) b h = ground arith
call_open end b h = ground arith

call_finished : (c : Call) (b : ResponseBuilder) → b.finished ≡ true → call c b ≡ none
unfolding call
call_finished (bytes bs) b h = ground arith
call_finished (frame bs) b h = ground arith
call_finished (text bs) b h = ground arith
call_finished (complete bs) b h = ground arith
call_finished end b h = ground arith

calls_finished : (cs : List Call) (b : ResponseBuilder) → b.finished ≡ true → calls cs b ≡ b
unfolding calls
calls_finished [] b h = refl
calls_finished (c ∷ cs) b h = rw (call_finished c b h, calls) (calls_finished cs b h)

-- On a builder that is not finished, any calls leave the buffer's old bytes in front of what the calls
-- wrote up to the first that ends the response; the calls behind that one add nothing.
output-calls :
    (cs : List Call) (b : ResponseBuilder)
    → b.finished ≡ false
    → (calls cs b).output ≡ b.output ++ response cs
unfolding calls
output-calls [] b h = sym (append-nil b.output)
output-calls (c ∷ cs) b h =
    rw (call_open c b h, calls)
      (elim (Bool-cases (ends c)) [
        | inl e ↦
            let done : ResponseBuilder = record {
              output = b.output ++ written c;
              finished = true;
            } in
            rw (e, append-nil (written c))
              (ap (λ (r : ResponseBuilder). r.output) (calls_finished cs done refl))
        | inr e ↦
            let going : ResponseBuilder = record {
              output = b.output ++ written c;
              finished = false;
            } in
            rw e (output-calls cs going refl ∙ append_assoc b.output (written c) (response cs))
      ])
