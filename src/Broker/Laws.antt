-- ===== src/Broker/Laws.antt =====
-- What one request does to the session.
use radio_cat_rs.Base.{
  Bool, true, false, ◌≡◌, ◌≢◌, sym, subst, none, some, List, [], ◌∷◌, inl, inr, find, length,
  Option-cases, Result-cases, Bool-cases, arith,
}
use radio_cat_rs.Base.Bytes.{Bytes}
use radio_cat_rs.Framework.Command.{CommandDefinition, CommandTable}
use radio_cat_rs.Framework.WireFormat.{CatWireFormat, IsIn, find-IsIn}
use radio_cat_rs.Framework.Process.{parse}
use radio_cat_rs.Framework.Process.Requests.{parse-Allows}
use radio_cat_rs.Client
use radio_cat_rs.Client.{CatSession, CatClient, find_code, execute_query_bytes, send_wire, query_as}
use radio_cat_rs.Broker.{call, route, dispatch, is_read}

-- A code that a definition of the table has is found.
find_code-IsIn :
    {C Code : Type 0} (same_code : Code → Code → Bool)
    (refl_code : (code : Code) → same_code code code ≡ true) (table : CommandTable C Code)
    (d : CommandDefinition C Code)
    → IsIn d table
    → (found : CommandDefinition C Code) × (find_code same_code table d.code ≡ some found)
find_code-IsIn same_code refl_code [] d h = absurd h
find_code-IsIn same_code refl_code (x ∷ table) d (inl same) =
    (x, ground (arith, same, refl_code d.code))
find_code-IsIn same_code refl_code (x ∷ table) d (inr later) =
    let (found, e) = find_code-IsIn same_code refl_code table d later in
    elim (Bool-cases (same_code x.code d.code)) [
      | inl here ↦ (x, ground (arith, here))
      | inr other ↦ (found, ground (arith, other, e))
    ]

find-holds : {A : Type 0} (p : A → Bool) (xs : List A) {a : A} → find p xs ≡ some a → p a ≡ true
find-holds p [] h = cc
find-holds p (x ∷ xs) h = elim (Bool-cases (p x)) [
  | inl e ↦ ground (arith, e)
  | inr e ↦ find-holds p xs (ground (arith, e))
]

module _ {C Code S E : Type 0} (same_code : Code → Code → Bool) (sessions : CatSession S E)
    (refl_code : (code : Code) → same_code code code ≡ true) where
  -- The look-up that the source expects to succeed does.
  pub dispatch_answers :
      (request : Bytes) (c : CatClient C Code S) → (dispatch same_code sessions request c).1 ≢ none
  unfolding dispatch route
  dispatch_answers request c = elim (Result-cases (parse c.format c.table request)) [
    | inr (e, refused) ↦ rw (refused, dispatch) (λ h. cc)
    | inl (parsed, accepted) ↦
        let allowed = parse-Allows c.format c.table request accepted in
        let (found, e) = find_code-IsIn same_code refl_code c.table allowed.0 allowed.1 in
        let e' : find_code same_code c.table parsed.code ≡ some found =
          subst (λ (k : Code). find_code same_code c.table k ≡ some found) (sym allowed.4) e in
        elim (Option-cases (is_read found parsed.operation (length parsed.parameters))) [
          | inl neither ↦ rw (accepted, dispatch) (rw (e', route) (rw neither (λ h. cc)))
          | inr (reads, as_read) ↦ rw (accepted, dispatch) (rw (e', route) (rw as_read (λ h. cc)))
        ]
  ]

module _ {C Code S E : Type 0} (same_code : Code → Code → Bool) (sessions : CatSession S E)
    (table : CommandTable C Code) (format : CatWireFormat C Code) (Kept : S → Type 0)
    (reads_keep : (d : CommandDefinition C Code) (code : Code) (params : Bytes) (s : S)
      → IsIn d table
      → same_code d.code code ≡ true
      → d.readable ≡ true
      → Kept s
      → Kept (sessions.execute (format.encode_request code params) [] s).0)
    (writes_keep : (d : CommandDefinition C Code) (code : Code) (params : Bytes) (s : S)
      → IsIn d table
      → same_code d.code code ≡ true
      → d.writable ≡ true
      → Kept s
      → Kept (sessions.send (format.encode_request code params) s).0) where
  abbrev over : S → CatClient C Code S
  over s = record { session = s; table = table; format = format }

  call-Kept :
      (reads : Bool) (code : Code) (params : Bytes) (s : S)
      → Kept s
      → Kept (call same_code sessions reads code params (over s)).0.session
  unfolding call query_as execute_query_bytes Client.set send_wire
  call-Kept true code params s kept = elim (Option-cases (find_code same_code table code)) [
    | inl unknown ↦ rw (unknown, query_as) kept
    | inr (d, found) ↦ elim (Bool-cases d.readable) [
      | inl readable ↦
          rw (found, query_as)
            (rw readable (
              reads_keep d code params s
                (find-IsIn (λ (d : CommandDefinition C Code). same_code d.code code) table found)
                (find-holds (λ (d : CommandDefinition C Code). same_code d.code code) table found)
                readable kept))
      | inr unreadable ↦ rw (found, query_as) (rw unreadable kept)
    ]
  ]
  call-Kept false code params s kept = elim (Option-cases (find_code same_code table code)) [
    | inl unknown ↦ rw (unknown, Client.set) kept
    | inr (d, found) ↦ elim (Bool-cases d.writable) [
      | inl writable ↦
          rw (found, Client.set)
            (rw writable (
              writes_keep d code params s
                (find-IsIn (λ (d : CommandDefinition C Code). same_code d.code code) table found)
                (find-holds (λ (d : CommandDefinition C Code). same_code d.code code) table found)
                writable kept))
      | inr unwritable ↦ rw (found, Client.set) (rw unwritable kept)
    ]
  ]

  -- Whatever bytes a client sends: what the session goes through is a read of a command that can be
  -- read, or a write of one that can be written, encoded by the format, or nothing.
  pub dispatch-Kept :
      (request : Bytes) (s : S)
      → Kept s
      → Kept (dispatch same_code sessions request (over s)).0.session
  unfolding dispatch route
  dispatch-Kept request s kept = elim (Result-cases (parse format table request)) [
    | inr (e, refused) ↦ rw (refused, dispatch) kept
    | inl (parsed, accepted) ↦ elim (Option-cases (find_code same_code table parsed.code)) [
      | inl unknown ↦ rw (accepted, dispatch) (rw (unknown, route) kept)
      | inr (d, found) ↦
          elim (Option-cases (is_read d parsed.operation (length parsed.parameters))) [
            | inl neither ↦ rw (accepted, dispatch) (rw (found, route) (rw neither kept))
            | inr (reads, as_read) ↦
                rw (accepted, dispatch)
                  (rw (found, route)
                    (rw as_read (call-Kept reads parsed.code parsed.parameters s kept)))
          ]
    ]
  ]
