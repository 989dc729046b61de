-- ===== src/ClientRegistry/Ids.antt =====
-- Ids are fresh, and what a registration or its end changes is the one client.
use radio_cat_rs.Base.{
  ℕ, suc, ◌+◌, ◌%◌, ◌^◌, ◌<◌, ◌≤◌, false, not, ◌&&◌, ◌||◌, ◌≡◌, refl, List, [], ◌∷◌, ◌==◌, any, All,
  arith,
}
use radio_cat_rs.ClientRegistry.{
  ClientRegistry, is_active, register, without, unregister, active_count,
}

-- The ids given out are below the next one, which is a word of 64 bits.
abbrev pub IsBelow : ℕ → ℕ → Type 0
IsBelow next id = id < next

abbrev pub IsWf : ClientRegistry → Type 0
IsWf registry = All (IsBelow registry.next_id) registry.active × (registry.next_id < 2 ^ 64)

below_absent :
    (next : ℕ) (active : List ℕ)
    → All (IsBelow next) active
    → any (λ (a : ℕ). a == next) active ≡ false
below_absent next [] h = refl
below_absent next (a ∷ active) (h, hs) = ground (arith, below_absent next active hs)

IsBelow-higher :
    (next higher : ℕ) (active : List ℕ)
    → next ≤ higher
    → All (IsBelow next) active
    → All (IsBelow higher) active
IsBelow-higher next higher [] le h = tt
IsBelow-higher next higher (a ∷ active) le (h, hs) =
    (omega arith, IsBelow-higher next higher active le hs)

IsBelow-without :
    (next id : ℕ) (active : List ℕ)
    → All (IsBelow next) active
    → All (IsBelow next) (without id active)
unfolding without
IsBelow-without next id [] h = tt
IsBelow-without next id (a ∷ active) (h, hs) = ground (arith, IsBelow-without next id active hs)

any-without :
    (k id : ℕ) (active : List ℕ)
    → any (λ (a : ℕ). a == k) (without id active)
      ≡ (not (k == id) && any (λ (a : ℕ). a == k) active)
unfolding without
any-without k id [] = ground arith
any-without k id (a ∷ active) = ground (arith, any-without k id active)

-- Before the counter of ids wraps, a registration gives an id that no active client has, makes
-- that client and no other active, and counts one more.
register_fresh :
    (registry : ClientRegistry) (k : ℕ)
    → IsWf registry
    → registry.next_id + 1 < 2 ^ 64
    → let (registry', id) = register registry in
      (is_active id registry ≡ false)
      × (is_active k registry' ≡ (id == k || is_active k registry))
      × (active_count registry' ≡ suc (active_count registry))
      × IsWf registry'
unfolding register is_active
register_fresh registry k (below, word) room =
    let absent = below_absent registry.next_id registry.active below in
    rw absent (
      refl,
      refl,
      refl,
      (
        (
          omega arith,
          IsBelow-higher registry.next_id ((registry.next_id + 1) % 2 ^ 64) registry.active
              (omega arith) below,
        ),
        omega arith,
      ),
    )

-- The end of a client's registration makes that client inactive and leaves every other as it was.
pub unregister-is_active :
    (registry : ClientRegistry) (id k : ℕ)
    → IsWf registry
    → (is_active k (unregister id registry) ≡ (not (k == id) && is_active k registry))
      × IsWf (unregister id registry)
unfolding unregister is_active
unregister-is_active registry id k (below, word) = (
  any-without k id registry.active,
  (IsBelow-without registry.next_id id registry.active below, word),
)
