-- ===== src/Rfc2217/Peer/Notify.antt =====
-- When a peer announces the modem lines.
use Prim.Native.Nat.{bit_and}
use radio_cat_rs.Base.{ℕ, ◌≡◌, ◌≢◌, Option, none, some, [], ◌∷◌, arith}
use radio_cat_rs.Base.Bits.{bit_and_masked}
use radio_cat_rs.Rfc2217.Codec.Client
use radio_cat_rs.Rfc2217.Peer.{Lines, modem_state, handle_com_port}
use radio_cat_rs.Rfc2217.Peer.Outcome.{quiet}

-- The lines of the client's subscription, as it was last told them.
abbrev pub told_levels : Lines → Option ℕ
told_levels l = elim l.last_notified [ none ↦ none | some s ↦ some (bit_and s l.modem_mask) ]

-- With a subscription, one call leaves the client told of the present state of the lines that it
-- subscribed to, whatever was announced before; the subscription stays, and the same state is not
-- announced again.
modem_state_settles :
    (state : ℕ) (l : Lines)
    → l.modem_mask ≢ 0
    → let (l', sent) = modem_state state l in
      (told_levels l' ≡ some (bit_and state l.modem_mask))
      × (l'.modem_mask ≡ l.modem_mask)
      × ((modem_state state l').1 ≡ none)
unfolding modem_state
modem_state_settles state l h = ground (arith, bit_and_masked state l.modem_mask)

-- A client that re-subscribes after an earlier announcement is not told anything while the lines of
-- its new mask read in that announcement as they do now, also of lines which that announcement had
-- masked out.
resubscribe_silent :
    (state mask earlier : ℕ) (l : Lines)
    → l.last_notified ≡ some earlier
    → bit_and earlier mask ≡ bit_and state mask
    → (modem_state state (handle_com_port Client.set_modemstate_mask (mask ∷ []) (quiet l)).lines).1
      ≡ none
unfolding modem_state handle_com_port
resubscribe_silent state mask earlier l e h = ground arith
