-- ===== src/Framework/Ascii/Requests.antt =====
-- A request that was encoded for a definition of the table is parsed as that definition.
use radio_cat_rs.Base.{
  ℕ, true, ◌≡◌, ◌↔◌, [], ◌∷◌, ◌++◌, find, some, ok, arith, last?-append, drop_last-append,
}
use radio_cat_rs.Base.Bytes.{Bytes, bytes_eq}
use radio_cat_rs.Framework.Command.{CommandOperation, CommandDefinition, CommandTable}
use radio_cat_rs.Framework.Process.{parse}
use radio_cat_rs.Framework.Process.Requests.{Allows, parse_iff}
use radio_cat_rs.Framework.Ascii.{
  strip_terminator, is_utf8_pair, encode_request, find_command, ascii_line_format,
}

strip_terminator-append : (bs : Bytes) → strip_terminator (bs ++ (b';' ∷ [])) ≡ some bs
unfolding strip_terminator
strip_terminator-append bs = ground (arith, last?-append bs b';', drop_last-append bs b';')

module _ {C : Type 0} where
  find_command-encode_request :
      (table : CommandTable C Bytes) (a b : ℕ) (d : CommandDefinition C Bytes) (params : Bytes)
      → is_utf8_pair (a ∷ b ∷ []) ≡ true
      → find (λ d. bytes_eq d.code (a ∷ b ∷ [])) table ≡ some d
      → find_command table (encode_request (a ∷ b ∷ []) params) ≡ ok (d, params)
  unfolding find_command encode_request
  find_command-encode_request table a b d params u h =
      ground (arith, strip_terminator-append (a ∷ b ∷ params), u, h)

  -- Encoding a request and parsing it: for the first definition of a code of two bytes that are
  -- text, `parse` gives back the definition's identifier, code and parameters, whatever bytes the parameters
  -- are, with exactly the operation that the definition allows.
  parse-encode_text_request :
      (table : CommandTable C Bytes) (a b : ℕ) (d : CommandDefinition C Bytes) (params : Bytes)
      (op : CommandOperation)
      → is_utf8_pair (a ∷ b ∷ []) ≡ true
      → find (λ d. bytes_eq d.code (a ∷ b ∷ [])) table ≡ some d
      → (parse ascii_line_format table (encode_request (a ∷ b ∷ []) params)
          ≡ ok (record { id = d.id; code = d.code; operation = op; parameters = params }))
        ↔ Allows d params op
  parse-encode_text_request table a b d params op u h =
      parse_iff ascii_line_format table (encode_request (a ∷ b ∷ []) params) d params op
        (find_command-encode_request table a b d params u h)
