-- ===== src/ClientRegistry.antt =====
-- cat-server/src/registry.rs: the connected clients. The `HashSet` of active ids is a list.
pub mod Ids
use radio_cat_rs.Base.{ℕ, suc, ◌+◌, ◌%◌, ◌^◌, Bool, List, [], ◌∷◌, ◌==◌, if◌then◌else◌, any, length}

pub record ClientRegistry : Type 0 where
  pub next_id : ℕ
  pub active : List ℕ

abbrev pub new : ClientRegistry
new = record { next_id = 0; active = [] }

unfoldable pub is_active : ℕ → ClientRegistry → Bool
is_active id registry = any (λ (a : ℕ). a == id) registry.active

unfoldable pub register : ClientRegistry → ClientRegistry × ℕ
register registry =
    let id = registry.next_id in
    (
      record {
        next_id = (id + 1) % 2 ^ 64;
        active =
            (if any (λ (a : ℕ). a == id) registry.active
              then registry.active
              else id ∷ registry.active);
      },
      id,
    )

unfoldable pub without : ℕ → List ℕ → List ℕ
without id [] = []
without id (a ∷ active) = let rest = without id active in if a == id then rest else a ∷ rest

unfoldable pub unregister : ℕ → ClientRegistry → ClientRegistry
unregister id registry = record registry { active = without id registry.active }

abbrev pub active_count : ClientRegistry → ℕ
active_count registry = length registry.active
