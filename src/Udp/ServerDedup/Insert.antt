-- ===== src/Udp/ServerDedup/Insert.antt =====
-- `insert` keeps the cache well formed, answers for its key, and drops no key but the oldest of a
-- full cache.
use radio_cat_rs.Base.{
  suc, ◌<◌, true, false, ◌||◌, ◌≡◌, ◌⊎◌, refl, sym, ap, ◌∙◌, List, [], ◌∷◌, ◌++◌, leb, Bool-cases,
  inl, inr, length, length-append, drop, some, arith,
}
use radio_cat_rs.Base.Bytes.{Bytes}
use radio_cat_rs.Udp.ServerDedup.{
  Key, key_eq, Responses, lookup, remove, contains_key, DedupCache, get, evict, admit, insert,
  dedup_cache_capacity,
}
use radio_cat_rs.Udp.ServerDedup.Laws.{
  key_eq_iff, among, distinct, lookup-remove_other, contains-remove, any-append, distinct-append,
  IsWf, IsRoomy, evict-IsRoomy, evict-full, evict-room,
}

contains-store :
    (key k : Key) (response : Bytes) (responses : Responses)
    → contains_key k ((key, response) ∷ remove key responses)
      ≡ (key_eq key k || contains_key k responses)
unfolding lookup
contains-store key k response responses = ground (arith, contains-remove key k responses)

store-IsWf :
    (key : Key) (response : Bytes) (cache : DedupCache)
    → IsWf cache
    → contains_key key cache.responses ≡ true
    → IsWf (record cache { responses = (key, response) ∷ remove key cache.responses })
store-IsWf key response cache (keys, once, bound) here = (
  (λ k. contains-store key k response cache.responses ∙ elim (Bool-cases (key_eq key k)) [
    | inl same ↦ rw same (
        sym (
          sym (keys k)
          ∙ (ap (λ x. contains_key x cache.responses) (sym ((key_eq_iff key k).0 same)) ∙ here)))
    | inr different ↦ rw different (keys k)
  ]),
  once,
  bound,
)

append-IsWf :
    (key : Key) (response : Bytes) (cache : DedupCache)
    → IsRoomy cache
    → contains_key key cache.responses ≡ false
    → IsWf (record {
      order = cache.order ++ (key ∷ []);
      responses = (key, response) ∷ remove key cache.responses;
    })
append-IsWf key response cache ((keys, once, bound), room) fresh = (
  (λ k.
      contains-store key k response cache.responses
      ∙ (ground (arith, keys k) ∙ sym (any-append k cache.order (key ∷ [])))),
  distinct-append key cache.order once (sym (keys key) ∙ fresh),
  omega (arith, length-append cache.order (key ∷ [])),
)

evict-contains :
    (key : Key) (order : List Key) (responses : Responses)
    → contains_key key responses ≡ false
    → contains_key key (evict (record { order = order; responses = responses })).responses ≡ false
unfolding evict
evict-contains key [] responses h = ground arith
evict-contains key (oldest ∷ order) responses h =
    ground (arith, contains-remove oldest key responses)

module _ (key : Key) (response : Bytes) (cache : DedupCache) where
  insert-known :
      contains_key key cache.responses ≡ true
      → insert key response cache
        ≡ record cache { responses = (key, response) ∷ remove key cache.responses }
  unfolding insert admit
  insert-known h = rw (h, insert, admit) refl

  insert-fresh :
      contains_key key cache.responses ≡ false
      → insert key response cache ≡ record {
        order = (evict cache).order ++ (key ∷ []);
        responses = (key, response) ∷ remove key (evict cache).responses;
      }
  unfolding insert admit
  insert-fresh h = rw (h, insert, admit) refl

-- A cache is empty at first; `insert` keeps its keys those that have a response, each once, and at
-- most 256 of them.
insert-IsWf :
    (key : Key) (response : Bytes) (cache : DedupCache)
    → IsWf cache
    → IsWf (insert key response cache)
insert-IsWf key response cache wf = elim (Bool-cases (contains_key key cache.responses)) [
  | inl here ↦ rw (insert-known key response cache here) (store-IsWf key response cache wf here)
  | inr fresh ↦ rw (insert-fresh key response cache fresh) (
      append-IsWf key response (evict cache) (evict-IsRoomy cache.order cache.responses wf)
        (evict-contains key cache.order cache.responses fresh))
]

-- The response that was inserted is the one that is found.
pub get-insert :
    (key : Key) (response : Bytes) (cache : DedupCache)
    → get key (insert key response cache) ≡ some response
unfolding insert lookup
get-insert key response cache = ground (arith, key_eq_iff key key)

lookup-store :
    (key other : Key) (response : Bytes) (responses : Responses)
    → key_eq key other ≡ false
    → lookup other ((key, response) ∷ remove key responses) ≡ lookup other responses
unfolding lookup
lookup-store key other response responses different =
    ground (arith, lookup-remove_other key other responses different)

not_oldest :
    (oldest other : Key) (order : List Key)
    → leb dedup_cache_capacity (suc (length order)) ≡ true
    → (suc (length order) < dedup_cache_capacity) ⊎ (among other order ≡ true)
    → distinct (oldest ∷ order) ≡ true
    → key_eq oldest other ≡ false
not_oldest oldest other order full (inl room) once = absurd (ground arith)
not_oldest oldest other order full (inr kept) once = elim (Bool-cases (key_eq oldest other)) [
  | inl same ↦
      let again = ap (λ k. among k order) ((key_eq_iff oldest other).0 same) ∙ kept in
      absurd (ground arith)
  | inr different ↦ different
]

get-evict :
    (other : Key) (order : List Key) (responses : Responses)
    → (length order < dedup_cache_capacity) ⊎ (among other (drop 1 order) ≡ true)
    → distinct order ≡ true
    → lookup other (evict (record { order = order; responses = responses })).responses
      ≡ lookup other responses
get-evict other [] responses h once =
    rw (evict-room (record { order = []; responses = responses }) refl) refl
get-evict other (oldest ∷ order) responses h once =
    elim (Bool-cases (leb dedup_cache_capacity (suc (length order)))) [
      | inl full ↦
          rw (evict-full oldest order responses full)
            (lookup-remove_other oldest other responses (not_oldest oldest other order full h once))
      | inr room ↦
          rw (evict-room (record { order = oldest ∷ order; responses = responses }) room) refl
    ]

-- A key that was answered keeps its response while another is inserted, unless it is the oldest of a
-- full cache.
get-insert_other :
    (key other : Key) (response : Bytes) (cache : DedupCache)
    → IsWf cache
    → key_eq key other ≡ false
    → (length cache.order < dedup_cache_capacity) ⊎ (among other (drop 1 cache.order) ≡ true)
    → get other (insert key response cache) ≡ get other cache
get-insert_other key other response cache (keys, once, bound) different kept =
    elim (Bool-cases (contains_key key cache.responses)) [
      | inl here ↦
          rw (insert-known key response cache here)
            (lookup-store key other response cache.responses different)
      | inr fresh ↦ rw (insert-fresh key response cache fresh) (
          lookup-store key other response (evict cache).responses different
          ∙ get-evict other cache.order cache.responses kept once)
    ]
