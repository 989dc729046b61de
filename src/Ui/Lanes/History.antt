-- ===== src/Ui/Lanes/History.antt =====
-- The history of a meter is its latest readings.
use radio_cat_rs.Base.{
  ℕ, suc, ◌-◌, ◌<◌, ◌≡◌, refl, sym, ap, ◌∙◌, List, [], ◌∷◌, ◌++◌, append_assoc, append-nil, ltb,
  ◌==◌, if◌then◌else◌, length, length-append, drop, length-drop, drop-append_le, drop_one-drop,
  arith, Bool-cases, inl, inr,
}
use radio_cat_rs.Framework.Capabilities.{MeterKind, same_meter, same_meter_trans, same_meter_sym}
use radio_cat_rs.Ui.Lanes.{
  CatLane, with_history, set_meter, push_reading, push_history, history_in, readings_of,
}

-- The last `n` of a list.
abbrev pub last_of : ℕ → List ℕ → List ℕ
last_of n xs = drop (length xs - n) xs

-- The readings of one meter among those of all.
abbrev pub of_meter : MeterKind → List (MeterKind × ℕ) → List ℕ
of_meter kind [] = []
of_meter kind ((k, raw) ∷ readings) =
    if same_meter k kind then raw ∷ of_meter kind readings else of_meter kind readings

-- A console notes the readings in turn.
unfoldable pub set_meters : List (MeterKind × ℕ) → CatLane → CatLane
set_meters [] lane = lane
set_meters ((kind, raw) ∷ readings) lane = set_meters readings (set_meter kind raw lane)

push_reading-last_of :
    (n raw : ℕ) (xs : List ℕ)
    → 0 < n
    → push_reading n raw (last_of n xs) ≡ last_of n (xs ++ (raw ∷ []))
unfolding push_reading
push_reading-last_of n raw xs some_room =
    let d = length xs - n in
    let more = xs ++ (raw ∷ []) in
    let longer = length-append xs (raw ∷ []) in
    let left = length-append (drop d xs) (raw ∷ []) in
    let count = length-drop d xs in
    elim (Bool-cases (ltb n (length (drop d xs ++ (raw ∷ []))))) [
      | inl full ↦ rw full (
          ap (drop 1) (sym (drop-append_le d xs (raw ∷ []) (omega arith)))
          ∙ drop_one-drop d more
          ∙ ap (λ k. drop k more) {x = suc d} (ground (arith, full, longer, left, count)))
      | inr room ↦ rw room (
          sym (drop-append_le d xs (raw ∷ []) (omega arith))
          ∙ ap (λ k. drop k more) {x = d} (ground (arith, room, longer, left, count)))
    ]

history_in-push_history :
    (kind k : MeterKind) (n raw : ℕ) (history : List (MeterKind × List ℕ))
    → history_in kind (push_history n k raw history) ≡ (
        if same_meter k kind
        then push_reading n raw (history_in kind history)
        else history_in kind history)
unfolding history_in push_history
history_in-push_history kind k n raw [] = ground arith
history_in-push_history kind k n raw ((k', readings) ∷ history) = ground (
  arith,
  history_in-push_history kind k n raw history,
  same_meter_trans k' k kind,
  same_meter_trans k kind k',
  same_meter_sym k' k,
  same_meter_sym k' kind,
)

module _ (kind : MeterKind) (n : ℕ) (some_room : 0 < n) where
  -- A lane whose history of the meter is the last of some readings.
  record Shows (past : List ℕ) (lane : CatLane) : Type 0 where
    len : lane.history_len ≡ n
    shown : readings_of kind lane ≡ last_of n past

  set_meter-history :
      (k : MeterKind) (raw : ℕ) (lane : CatLane)
      → lane.history_len ≡ n
      → (set_meter k raw lane).meter_history ≡ push_history n k raw lane.meter_history
  unfolding set_meter
  set_meter-history k raw lane len = ground (arith, len)

  set_meter-len :
      (k : MeterKind) (raw : ℕ) (lane : CatLane)
      → (set_meter k raw lane).history_len ≡ lane.history_len
  unfolding set_meter
  set_meter-len k raw lane = elim (Bool-cases (lane.history_len == 0)) [
    | inl e ↦ rw e refl
    | inr e ↦ rw e refl
  ]

  set_meter-Shows :
      (k : MeterKind) (raw : ℕ) (past : List ℕ) (lane : CatLane)
      → Shows past lane
      → Shows (if same_meter k kind then past ++ (raw ∷ []) else past) (set_meter k raw lane)
  set_meter-Shows k raw past lane shows =
      let pushed =
        ap (history_in kind) (set_meter-history k raw lane shows.len)
        ∙ history_in-push_history kind k n raw lane.meter_history in
      elim (Bool-cases (same_meter k kind)) [
        | inl e ↦ record {
          len = set_meter-len k raw lane ∙ shows.len;
          shown = rw e (
              pushed
              ∙ rw e (
                  ap (push_reading n raw) shows.shown ∙ push_reading-last_of n raw past some_room));
        }
        | inr e ↦ record {
          len = set_meter-len k raw lane ∙ shows.len;
          shown = rw e (pushed ∙ rw e shows.shown);
        }
      ]

  set_meters-Shows :
      (readings : List (MeterKind × ℕ)) (past : List ℕ) (lane : CatLane)
      → Shows past lane
      → Shows (past ++ of_meter kind readings) (set_meters readings lane)
  unfolding set_meters
  set_meters-Shows [] past lane shows = rw (append-nil past) shows
  set_meters-Shows ((k, raw) ∷ readings) past lane shows =
      let next = set_meter-Shows k raw past lane shows in
      let later =
        set_meters-Shows readings (if same_meter k kind then past ++ (raw ∷ []) else past)
          (set_meter k raw lane) next in
      elim (Bool-cases (same_meter k kind)) [
        | inl e ↦
            rw (e) (rw (← append_assoc past (raw ∷ []) (of_meter kind readings)) (rw e at later))
        | inr e ↦ rw e (rw e at later)
      ]

  -- Behind any readings of all the meters, a lane that keeps `n` shows the last `n` of each, oldest first.
  readings_of-set_meters :
      (readings : List (MeterKind × ℕ))
      → readings_of kind (set_meters readings (with_history n)) ≡ last_of n (of_meter kind readings)
  unfolding history_in
  readings_of-set_meters readings =
      (set_meters-Shows readings [] (with_history n)
        (record { len = refl; shown = ap (λ k. drop k []) {x = 0} (omega arith) })).shown
