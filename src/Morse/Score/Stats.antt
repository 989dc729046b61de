-- ===== src/Morse/Score/Stats.antt =====
-- `CharStats` of cat-morse/src/score.rs: how each sent unit has fared. A map is a list of its entries. A
-- count is a u32, which wraps around, as it does in a release build; one with overflow checks panics there.
use radio_cat_rs.Base.{ℕ, ◌+◌, ◌%◌, ◌^◌, true, false, List, [], ◌∷◌, get_elem?, Option, none, some}
use radio_cat_rs.Morse.{Token, char, prosign, word_space, same_token}
use radio_cat_rs.Morse.Score.{AlignOp, match, substitution, deletion, insertion, Alignment}
pub mod Balance

pub record CharTally : Type 0 where
  pub sent : ℕ
  pub correct : ℕ
  pub missed : ℕ
  pub inserted_near : ℕ
  pub confused_as : List (Token × ℕ)

-- An addition of u32 counts.
abbrev pub u32_mod : ℕ
u32_mod = 2 ^ 32

abbrev pub add_u32 : ℕ → ℕ → ℕ
add_u32 a b = (a + b) % u32_mod

abbrev pub default_tally : CharTally
default_tally = record { sent = 0; correct = 0; missed = 0; inserted_near = 0; confused_as = [] }

-- `*map.entry(unit).or_insert(0) += n`.
unfoldable pub add_to : Token → ℕ → List (Token × ℕ) → List (Token × ℕ)
add_to unit n [] = (unit, add_u32 0 n) ∷ []
add_to unit n ((u, m) ∷ entries) = elim (same_token u unit) [
  | true ↦ (u, add_u32 m n) ∷ entries
  | false ↦ (u, m) ∷ add_to unit n entries
]

unfoldable pub add_all : List (Token × ℕ) → List (Token × ℕ) → List (Token × ℕ)
unfolding add_to
add_all [] entries = entries
add_all ((u, n) ∷ more) entries = add_all more (add_to u n entries)

-- `CharTally::merge`.
unfoldable pub merge_tally : CharTally → CharTally → CharTally
unfolding add_all
merge_tally t o = record {
  sent = add_u32 t.sent o.sent;
  correct = add_u32 t.correct o.correct;
  missed = add_u32 t.missed o.missed;
  inserted_near = add_u32 t.inserted_near o.inserted_near;
  confused_as = add_all o.confused_as t.confused_as;
}

abbrev pub CharStats : Type 0
CharStats = List (Token × CharTally)

-- `f(units.entry(unit).or_default())`.
unfoldable pub update : Token → (CharTally → CharTally) → CharStats → CharStats
update unit f [] = (unit, f default_tally) ∷ []
update unit f ((u, t) ∷ stats) = elim (same_token u unit) [
  | true ↦ (u, f t) ∷ stats
  | false ↦ (u, t) ∷ update unit f stats
]

abbrev pub tally_match : CharTally → CharTally
tally_match t = record t { sent = add_u32 t.sent 1; correct = add_u32 t.correct 1 }

abbrev pub tally_miss : CharTally → CharTally
tally_miss t = record t { sent = add_u32 t.sent 1; missed = add_u32 t.missed 1 }

abbrev pub tally_confusion : Token → CharTally → CharTally
tally_confusion copied t = record t {
  sent = add_u32 t.sent 1;
  confused_as = add_to copied 1 t.confused_as;
}

abbrev pub tally_insertion : CharTally → CharTally
tally_insertion t = record t { inserted_near = add_u32 t.inserted_near 1 }

-- Word spaces have no tally.
unfoldable pub update_symbol : Token → (CharTally → CharTally) → CharStats → CharStats
unfolding update
update_symbol word_space f stats = stats
update_symbol (char c) f stats = update (char c) f stats
update_symbol (prosign p) f stats = update (prosign p) f stats

-- `attributed_to.and_then(|i| a.expected.get(i))`.
abbrev pub charged : List Token → Option ℕ → Option Token
charged expected none = none
charged expected (some i) = get_elem? expected i

unfoldable pub record_op : List Token → AlignOp → CharStats → CharStats
unfolding update_symbol
record_op expected (match x) stats = update_symbol x tally_match stats
record_op expected (deletion x) stats = update_symbol x tally_miss stats
record_op expected (substitution x y) stats = update_symbol x (tally_confusion y) stats
record_op expected (insertion y to) stats = elim (charged expected to) [
  | none ↦ stats
  | some unit ↦ update_symbol unit tally_insertion stats
]

unfoldable pub record_ops : List Token → List AlignOp → CharStats → CharStats
unfolding record_op
record_ops expected [] stats = stats
record_ops expected (op ∷ ops) stats = record_ops expected ops (record_op expected op stats)

-- `CharStats::record`.
unfoldable pub record_alignment : Alignment → CharStats → CharStats
unfolding record_ops
record_alignment a stats = record_ops a.expected a.ops stats

-- `CharStats::merge`.
unfoldable pub merge : CharStats → CharStats → CharStats
unfolding update merge_tally
merge [] stats = stats
merge ((u, t) ∷ other) stats =
    merge other (update u (λ (mine : CharTally). merge_tally mine t) stats)

-- `CharStats::get`.
unfoldable pub get : Token → CharStats → Option CharTally
get unit [] = none
get unit ((u, t) ∷ stats) = elim (same_token u unit) [ true ↦ some t | false ↦ get unit stats ]
