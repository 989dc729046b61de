-- ===== src/Rigctl/Lines.antt =====
-- One line out of the splitter.
use radio_cat_rs.Base.{
  ℕ, ◌≡◌, ◌≢◌, refl, sym, ◌∙◌, All-append, [], ◌∷◌, ◌++◌, All, last?-append, drop_last-append,
  append_assoc, none, some, arith,
}
use radio_cat_rs.Base.Bytes.{Bytes}
use radio_cat_rs.Rigctl.{new, feed, split_newline, trim_return, try_take_line}

abbrev pub NotNewline : ℕ → Type 0
NotNewline b = b ≢ b'\n'

split_newline-append :
    (line behind : Bytes)
    → All NotNewline line
    → split_newline (line ++ (b'\n' ∷ behind)) ≡ some (line, behind)
unfolding split_newline
split_newline-append [] behind h = refl
split_newline-append (b ∷ line) behind (h, hs) = ground (arith, split_newline-append line behind hs)

split_newline-none : (line : Bytes) → All NotNewline line → split_newline line ≡ none
unfolding split_newline
split_newline-none [] h = refl
split_newline-none (b ∷ line) (h, hs) = ground (arith, split_newline-none line hs)

trim_return-append : (line : Bytes) → trim_return (line ++ (b'\r' ∷ [])) ≡ line
trim_return-append line = ground (arith, last?-append line b'\r', drop_last-append line b'\r')

-- A command that arrives in two pieces: after the first there is no line yet; after the second, which
-- ends it with a carriage return and a newline, the line is the two pieces, and what follows
-- the newline stays for the next line.
try_take_line-feed :
    (lossy : Bytes → Bytes) (front back behind : Bytes)
    → All NotNewline front
    → All NotNewline back
    → (try_take_line lossy (feed front new) ≡ (feed front new, none))
      × (try_take_line lossy (feed (back ++ (b'\r' ∷ b'\n' ∷ behind)) (feed front new))
          ≡ (feed behind new, some (lossy (front ++ back))))
unfolding try_take_line feed
try_take_line-feed lossy front back behind hf hb =
    let line = (front ++ back) ++ (b'\r' ∷ []) in
    let pieces : front ++ (back ++ (b'\r' ∷ b'\n' ∷ behind)) ≡ line ++ (b'\n' ∷ behind) = sym (
      append_assoc (front ++ back) (b'\r' ∷ []) (b'\n' ∷ behind)
      ∙ append_assoc front back (b'\r' ∷ b'\n' ∷ behind)) in
    let found = split_newline-append line behind (
      All-append NotNewline (front ++ back) (b'\r' ∷ []) (All-append NotNewline front back hf hb)
        (omega arith, tt)) in
    (
      ground (arith, split_newline-none front hf),
      rw (pieces, found, try_take_line, trim_return-append (front ++ back)) refl,
    )
