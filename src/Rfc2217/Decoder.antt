-- ===== src/Rfc2217/Decoder.antt =====
-- cat-transport-rfc2217/src/codec.rs: `Decoder`, the streaming half. `&mut self` and
-- `out: &mut Vec<Event>` are passed in and returned; the field `data` is `run` here.
pub mod Stream
pub mod Chunks
pub mod RoundTrip
use radio_cat_rs.Base.{ℕ, not, ◌||◌, List, [], ◌∷◌, ◌++◌, ◌==◌, if◌then◌else◌, is_empty}
use radio_cat_rs.Base.Bytes.{Bytes}
use radio_cat_rs.Rfc2217.Codec.{iac, se, sb, will, wont, do_verb, dont, opt_com_port}

pub data Event : Type 0 where
  data_run : Bytes → Event
  com_port : ℕ → Bytes → Event
  negotiate : ℕ → ℕ → Event
  other_subnegotiation : ℕ → Bytes → Event

pub data State : Type 0 where
  plain : State
  after_iac : State
  verb : ℕ → State
  sub_option : State
  sub_body : State
  sub_iac : State

pub record Decoder : Type 0 where
  pub state : State
  pub option : ℕ
  pub body : Bytes
  pub run : Bytes

abbrev pub new : Decoder
new = record { state = plain; option = 0; body = []; run = [] }

-- A decoder beside what it has put out.
abbrev pub Out : Type 0
Out = Decoder × List Event

unfoldable pub flush_data : Decoder → List Event → Out
flush_data d out =
    if not (is_empty d.run) then (record d { run = [] }, out ++ (data_run d.run ∷ [])) else (d, out)

-- The event of a finished subnegotiation; an empty Com Port body has none.
unfoldable pub finished : ℕ → Bytes → List Event
finished option [] = if option == opt_com_port then [] else other_subnegotiation option [] ∷ []
finished option (command ∷ params) =
    if option == opt_com_port
    then com_port command params ∷ []
    else other_subnegotiation option (command ∷ params) ∷ []

step_iac : Decoder → List Event → ℕ → Out
step_iac d out b =
    if b == iac
    then (record d { run = d.run ++ (iac ∷ []); state = plain }, out)
    else if b == will || b == wont || b == do_verb || b == dont
    then (record d { state = verb b }, out)
    else if b == sb
    then (record d { state = sub_option }, out)
    else (record d { state = plain }, out)

step_sub_iac : Decoder → List Event → ℕ → Out
unfolding flush_data finished
step_sub_iac d out b =
    if b == iac
    then (record d { body = d.body ++ (iac ∷ []); state = sub_body }, out)
    else if b == se
    then (let (d', out') = flush_data d out in
        (record d' { body = []; state = plain }, out' ++ finished d'.option d'.body))
    else (record d { body = []; state = plain }, out)

unfoldable pub step_in : State → Decoder → List Event → ℕ → Out
unfolding step_iac step_sub_iac
step_in plain d out b =
    if b == iac
    then (record d { state = after_iac }, out)
    else (record d { run = d.run ++ (b ∷ []) }, out)
step_in after_iac d out b = step_iac d out b
step_in (verb v) d out b =
    let (d', out') = flush_data d out in (record d' { state = plain }, out' ++ (negotiate v b ∷ []))
step_in sub_option d out b = (record d { option = b; body = []; state = sub_body }, out)
step_in sub_body d out b =
    if b == iac
    then (record d { state = sub_iac }, out)
    else (record d { body = d.body ++ (b ∷ []) }, out)
step_in sub_iac d out b = step_sub_iac d out b

unfoldable pub step : Decoder → List Event → ℕ → Out
unfolding step_in
step d out b = step_in d.state d out b

unfoldable pub steps : Bytes → Decoder → List Event → Out
unfolding step
steps [] d out = (d, out)
steps (b ∷ bs) d out = let (d', out') = step d out b in steps bs d' out'

unfoldable pub push : Bytes → Decoder → List Event → Out
unfolding steps flush_data
push bytes d out = let (d', out') = steps bytes d out in flush_data d' out'
