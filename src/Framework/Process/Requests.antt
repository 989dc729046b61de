-- ===== src/Framework/Process/Requests.antt =====
-- What `parse` accepts and refuses, for any wire format.
use radio_cat_rs.Base.{
  ℕ, ◌≤◌, ◌<◌, sym, Bool, Bool-cases, ◌⊎◌, inl, inr, any, List, true, false, ◌&&◌, ◌≡◌, ◌↔◌, refl,
  ap, [], ◌∷◌, length, is_empty, ok, >>=-eq-ok, ok_inj, arith, subst,
}
use radio_cat_rs.Base.Bytes.{Bytes}
use radio_cat_rs.Framework.Command.{
  CommandOperation, query, set, action, response, CommandDefinition, CommandTable, CommandForm,
  operation_eq, matches, supports,
}
use radio_cat_rs.Framework.WireFormat.{CatWireFormat, IsIn}
use radio_cat_rs.Framework.Process.{CommandRequest, classify, parse}

-- One of the forms is for the operation, and takes a parameter of that many bytes.
abbrev pub HasForm : CommandOperation → ℕ → List CommandForm → Type 0
HasForm op len [] = ⊥
HasForm op len (form ∷ forms) =
    ((form.operation ≡ op) × (form.min_len ≤ len) × (len ≤ form.max_len)) ⊎ HasForm op len forms

-- A query comes before an action, and that before a set.
abbrev pub rank : CommandOperation → ℕ
rank query = 0
rank action = 1
rank set = 2
rank response = 3

operation_eq_sound : (a b : CommandOperation) → operation_eq a b ≡ true → a ≡ b
operation_eq_sound query b h = ground (arith, h)
operation_eq_sound set b h = ground (arith, h)
operation_eq_sound action b h = ground (arith, h)
operation_eq_sound response b h = ground (arith, h)

operation_eq_refl : (a : CommandOperation) → operation_eq a a ≡ true
operation_eq_refl a = ground arith

matches_iff :
    (form : CommandForm) (op : CommandOperation) (len : ℕ)
    → (matches form op len ≡ true)
      ↔ ((form.operation ≡ op) × (form.min_len ≤ len) × (len ≤ form.max_len))
unfolding matches
matches_iff form op len = (
  λ h. (
    operation_eq_sound form.operation op (ground (arith, h)),
    ground (arith, h),
    ground (arith, h),
  ),
  λ (same, least, most).
      let e = ap (λ (o : CommandOperation). operation_eq form.operation o) (sym same) in
      let alike = operation_eq_refl form.operation in ground (arith, e, alike),
)

any_iff :
    (op : CommandOperation) (len : ℕ) (forms : List CommandForm)
    → (any (λ (form : CommandForm). matches form op len) forms ≡ true) ↔ HasForm op len forms
any_iff op len [] = ((λ h. cc), (λ h. absurd h))
any_iff op len (form ∷ forms) =
    let (there, back) = matches_iff form op len in
    let (later, earlier) = any_iff op len forms in
    (
      λ h. elim (Bool-cases (matches form op len)) [
        | inl e ↦ inl (there e)
        | inr e ↦ inr (later (ground (arith, h, e)))
      ],
      λ h. elim h [
        | inl fits ↦ ground (arith, back fits)
        | inr rest ↦ ground (arith, earlier rest)
      ],
    )

-- A test that holds exactly where something does fails exactly where it does not.
false_iff : {P : Type 0} (b : Bool) → ((b ≡ true) ↔ P) → (b ≡ false) ↔ (¬ P)
false_iff true (to, from) = (λ h. cc, λ never. absurd (never (to refl)))
false_iff false (to, from) = (λ h p. cc (from p), λ never. refl)

module _ {C Code : Type 0} where
  -- What `classify` tests, in its order.
  abbrev pub Chooses : CommandDefinition C Code → Bytes → CommandOperation → Type 0
  Chooses d params query = supports d query (length params) ≡ true
  Chooses d params action =
      (supports d query (length params) ≡ false) × (params ≡ []) × (supports d action 0 ≡ true)
  Chooses d params set =
      (supports d query (length params) ≡ false)
      × ((is_empty params && supports d action 0) ≡ false)
      × (supports d set (length params) ≡ true)
  Chooses d params response = ⊥

  -- The definition takes the operation with these parameters; an action has none.
  abbrev pub Takes : CommandDefinition C Code → Bytes → CommandOperation → Type 0
  Takes d params query = HasForm query (length params) d.query_forms
  Takes d params action = (params ≡ []) × HasForm action 0 d.action_forms
  Takes d params set = HasForm set (length params) d.set_forms
  Takes d params response = ⊥

  -- The first operation that the definition takes with these parameters.
  abbrev pub Allows : CommandDefinition C Code → Bytes → CommandOperation → Type 0
  Allows d params op =
      Takes d params op
      × ((other : CommandOperation) → rank other < rank op → ¬ Takes d params other)

  classify-Chooses :
      (d : CommandDefinition C Code) (params text : Bytes) (op : CommandOperation)
      → classify d params text ≡ ok op
      → Chooses d params op
  unfolding classify
  classify-Chooses d [] text query h = ground arith
  classify-Chooses d [] text action h = ground arith
  classify-Chooses d [] text set h = ground arith
  classify-Chooses d [] text response h = ground arith
  classify-Chooses d (x ∷ xs) text query h = ground arith
  classify-Chooses d (x ∷ xs) text action h = ground arith
  classify-Chooses d (x ∷ xs) text set h = ground arith
  classify-Chooses d (x ∷ xs) text response h = ground arith

  Chooses-classify :
      (d : CommandDefinition C Code) (params text : Bytes) (op : CommandOperation)
      → Chooses d params op
      → classify d params text ≡ ok op
  unfolding classify
  Chooses-classify d [] text query h = ground arith
  Chooses-classify d [] text action h = ground arith
  Chooses-classify d [] text set h = ground arith
  Chooses-classify d [] text response h = ground arith
  Chooses-classify d (x ∷ xs) text query h = ground arith
  Chooses-classify d (x ∷ xs) text action h = ground arith
  Chooses-classify d (x ∷ xs) text set h = ground arith
  Chooses-classify d (x ∷ xs) text response h = ground arith

  before_action :
      (d : CommandDefinition C Code) (params : Bytes)
      → ¬ Takes d params query
      → (other : CommandOperation) → rank other < 1
      → ¬ Takes d params other
  before_action d params unasked query earlier = unasked
  before_action d params unasked action earlier = absurd (omega (arith, earlier))
  before_action d params unasked set earlier = absurd (omega (arith, earlier))
  before_action d params unasked response earlier = absurd (omega (arith, earlier))

  before_set :
      (d : CommandDefinition C Code) (params : Bytes)
      → ¬ Takes d params query
      → ¬ Takes d params action
      → (other : CommandOperation) → rank other < 2
      → ¬ Takes d params other
  before_set d params unasked idle query earlier = unasked
  before_set d params unasked idle action earlier = idle
  before_set d params unasked idle set earlier = absurd (omega (arith, earlier))
  before_set d params unasked idle response earlier = absurd (omega (arith, earlier))

  acts_iff :
      (d : CommandDefinition C Code) (params : Bytes)
      → ((is_empty params && supports d action 0) ≡ true) ↔ Takes d params action
  unfolding supports
  acts_iff d [] =
      let (to, from) = any_iff action 0 d.action_forms in (λ h. (refl, to h), λ (bare, t). from t)
  acts_iff d (x ∷ params) = (λ h. cc, λ (bare, t). cc)

  pub Chooses-Allows :
      (d : CommandDefinition C Code) (params : Bytes) (op : CommandOperation)
      → Chooses d params op ↔ Allows d params op
  unfolding supports
  Chooses-Allows d params query =
      let (to, from) = any_iff query (length params) d.query_forms in
      (λ h. (to h, λ other earlier. absurd (omega (arith, earlier))), λ (takes, first). from takes)
  Chooses-Allows d params action =
      let (refute, fails) =
        false_iff (supports d query (length params))
          (any_iff query (length params) d.query_forms) in
      let (to, from) = any_iff action 0 d.action_forms in
      (
        λ (unasked, bare, acts). ((bare, to acts), before_action d params (refute unasked)),
        λ ((bare, takes), first). (fails (first query (omega arith)), bare, from takes),
      )
  Chooses-Allows d params set =
      let (refute, fails) =
        false_iff (supports d query (length params))
          (any_iff query (length params) d.query_forms) in
      let (refute_act, fails_act) =
        false_iff (is_empty params && supports d action 0) (acts_iff d params) in
      let (to, from) = any_iff set (length params) d.set_forms in
      (
        λ (unasked, idle, sets). (to sets, before_set d params (refute unasked) (refute_act idle)),
        λ (takes, first).
            (fails (first query (omega arith)), fails_act (first action (omega arith)), from takes),
      )
  Chooses-Allows d params response = (λ h. absurd h, λ (takes, first). absurd takes)

  classify-Allows :
      (d : CommandDefinition C Code) (params text : Bytes) (op : CommandOperation)
      → classify d params text ≡ ok op
      → Allows d params op
  classify-Allows d params text op h =
      (Chooses-Allows d params op).0 (classify-Chooses d params text op h)

  Allows-classify :
      (d : CommandDefinition C Code) (params text : Bytes) (op : CommandOperation)
      → Allows d params op
      → classify d params text ≡ ok op
  Allows-classify d params text op allowed =
      Chooses-classify d params text op ((Chooses-Allows d params op).1 allowed)

module _ {C Code : Type 0} (f : CatWireFormat C Code) (table : CommandTable C Code)
    (frame : Bytes) where
  -- Everything that `parse` accepts comes from a definition of the table: the identifier, the code and the
  -- parameters are its own, and it allows the operation at the length of the parameters.
  pub parse-Allows :
      {r : CommandRequest C Code}
      → parse f table frame ≡ ok r
      → (d : CommandDefinition C Code) × IsIn d table
        × (f.find_command table frame ≡ ok (d, r.parameters))
        × (r.id ≡ d.id)
        × (r.code ≡ d.code)
        × Allows d r.parameters r.operation
  unfolding parse
  parse-Allows {r} h =
      let (found, e, h') = >>=-eq-ok (f.find_command table frame) _ h in
      let (op, c, h'') = >>=-eq-ok (classify found.0 found.1 (f.debug_code found.0.code)) _ h' in
      subst
        (λ (r : CommandRequest C Code).
          (d : CommandDefinition C Code) × IsIn d table
          × (f.find_command table frame ≡ ok (d, r.parameters))
          × (r.id ≡ d.id)
          × (r.code ≡ d.code)
          × Allows d r.parameters r.operation)
        (ok_inj h'')
        (
          found.0,
          f.find_command-IsIn table frame e,
          e,
          refl,
          refl,
          classify-Allows found.0 found.1 (f.debug_code found.0.code) op c,
        )

  pub parse_iff :
      (d : CommandDefinition C Code) (params : Bytes) (op : CommandOperation)
      → f.find_command table frame ≡ ok (d, params)
      → (parse f table frame
          ≡ ok (record { id = d.id; code = d.code; operation = op; parameters = params }))
        ↔ Allows d params op
  unfolding parse
  parse_iff d params op h =
      let text = f.debug_code d.code in
      (
        λ e.
            let (op', c, e') = >>=-eq-ok (classify d params text) _ (rw h at e) in
            subst (Allows d params) (ap (λ (r : CommandRequest C Code). r.operation) (ok_inj e'))
              (classify-Allows d params text op' c),
        λ allowed. rw h (rw (Allows-classify d params text op allowed)),
      )
