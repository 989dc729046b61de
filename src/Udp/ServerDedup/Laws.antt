-- ===== src/Udp/ServerDedup/Laws.antt =====
-- The keys in order are those that have a response, each once, and no more than the capacity.
use radio_cat_rs.Base.{
  suc, ◌≤◌, ◌<◌, Bool, true, false, not, ◌&&◌, ◌||◌, ◌≡◌, ◌↔◌, refl, sym, ap, ◌∙◌, List, [], ◌∷◌,
  ◌++◌, leb, Bool-cases, inl, inr, length, any, none, arith,
}
use radio_cat_rs.Udp.ServerDedup.{
  Key, key_eq, Responses, lookup, remove, contains_key, is_some, DedupCache, new, evict,
  dedup_cache_capacity,
}

pub key_eq_iff : (a b : Key) → (key_eq a b ≡ true) ↔ (a ≡ b)
key_eq_iff a b = ground arith

abbrev pub among : Key → List Key → Bool
among key keys = any (λ (k : Key). key_eq k key) keys

abbrev pub distinct : List Key → Bool
distinct [] = true
distinct (k ∷ keys) = not (among k keys) && distinct keys

pub lookup-remove_same :
    (key : Key) (responses : Responses) → lookup key (remove key responses) ≡ none
unfolding lookup remove
lookup-remove_same key [] = refl
lookup-remove_same key ((k, response) ∷ rest) = ground (arith, lookup-remove_same key rest)

pub lookup-remove_other :
    (key other : Key) (responses : Responses)
    → key_eq key other ≡ false
    → lookup other (remove key responses) ≡ lookup other responses
unfolding lookup remove
lookup-remove_other key other [] h = refl
lookup-remove_other key other ((k, response) ∷ rest) h =
    ground (arith, lookup-remove_other key other rest h)

pub any-append :
    (key : Key) (xs ys : List Key) → among key (xs ++ ys) ≡ (among key xs || among key ys)
any-append key [] ys = refl
any-append key (x ∷ xs) ys = ground (arith, any-append key xs ys)

pub distinct-append :
    (key : Key) (keys : List Key)
    → distinct keys ≡ true
    → among key keys ≡ false
    → distinct (keys ++ (key ∷ [])) ≡ true
distinct-append key [] h fresh = refl
distinct-append key (k ∷ keys) h fresh =
    ground (arith, distinct-append key keys, any-append k keys (key ∷ []))

-- Of the keys and the responses of a cache.
abbrev pub IsWf : DedupCache → Type 0
IsWf cache =
    ((key : Key) → contains_key key cache.responses ≡ among key cache.order)
    × (distinct cache.order ≡ true)
    × (length cache.order ≤ dedup_cache_capacity)

pub new-IsWf : IsWf new
unfolding lookup
new-IsWf = (λ key. refl, refl, omega arith)

pub contains-remove :
    (key other : Key) (responses : Responses)
    → contains_key other (remove key responses)
      ≡ (not (key_eq key other) && contains_key other responses)
contains-remove key other responses = elim (Bool-cases (key_eq key other)) [
  | inl same ↦ rw same (
      ap (λ k. contains_key k (remove key responses)) (sym ((key_eq_iff key other).0 same))
      ∙ ap is_some (lookup-remove_same key responses))
  | inr different ↦ rw different (ap is_some (lookup-remove_other key other responses different))
]

contains-pop :
    (oldest key : Key) (order : List Key) (responses : Responses)
    → contains_key key responses ≡ among key (oldest ∷ order)
    → among oldest order ≡ false
    → contains_key key (remove oldest responses) ≡ among key order
contains-pop oldest key order responses h once =
    contains-remove oldest key responses ∙ elim (Bool-cases (key_eq oldest key)) [
      | inl same ↦
          rw same (sym (ap (λ k. among k order) (sym ((key_eq_iff oldest key).0 same)) ∙ once))
      | inr different ↦ rw different (h ∙ rw different refl)
    ]

pub evict-full :
    (oldest : Key) (order : List Key) (responses : Responses)
    → leb dedup_cache_capacity (suc (length order)) ≡ true
    → evict (record { order = oldest ∷ order; responses = responses })
      ≡ record { order = order; responses = remove oldest responses }
unfolding evict
evict-full oldest order responses h = rw (h, evict) refl

pub evict-room :
    (cache : DedupCache)
    → leb dedup_cache_capacity (length cache.order) ≡ false
    → evict cache ≡ cache
unfolding evict
evict-room cache h = rw (h, evict) refl

abbrev pub IsRoomy : DedupCache → Type 0
IsRoomy cache = IsWf cache × (length cache.order < dedup_cache_capacity)

pub evict-IsRoomy :
    (order : List Key) (responses : Responses)
    → IsWf (record { order = order; responses = responses })
    → IsRoomy (evict (record { order = order; responses = responses }))
evict-IsRoomy [] responses wf =
    rw (evict-room (record { order = []; responses = responses }) refl) (wf, omega arith)
evict-IsRoomy (oldest ∷ order) responses (keys, once, bound) =
    elim (Bool-cases (leb dedup_cache_capacity (suc (length order)))) [
      | inl full ↦ rw (evict-full oldest order responses full) (
        (
          (λ key. contains-pop oldest key order responses (keys key) (ground arith)),
          ground arith,
          omega arith,
        ),
        omega arith,
      )
      | inr room ↦
          rw (evict-room (record { order = oldest ∷ order; responses = responses }) room)
            ((keys, once, bound), ground arith)
    ]
