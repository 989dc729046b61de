-- ===== src/Ui/Tests.antt =====
-- A console's lane at concrete inputs.
use radio_cat_rs.Base.{◌≡◌, List, [], ◌∷◌, any}
use radio_cat_rs.Ui.Lanes.{
  Pending, split, notch, confirmed, rejected, with_history, is_pending, same_control,
}
use radio_cat_rs.Ui.Lanes.Settling.{Event, sends, hears, run, unheard, run-unheard}

-- The outcome of the first command comes twice, that of the second not at all.
abbrev heard : List Event
heard = sends split ∷ sends notch ∷ hears 1 confirmed ∷ hears 1 rejected ∷ []

run-unheard_example :
    ((run heard (with_history 3)).in_flight ≡ unheard 0 heard)
    × (is_pending notch (run heard (with_history 3))
        ≡ any (λ (p : Pending). same_control p.control notch) (unheard 0 heard))
run-unheard_example = run-unheard heard 3 notch
