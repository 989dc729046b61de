-- ===== src/Udp/ServerDedup.antt =====
-- cat-server/src/dedup.rs: the server's cache of the answers it has sent, oldest key dropped first.
-- `HashMap` is an association list.
pub mod Laws
pub mod Insert
use radio_cat_rs.Base.{
  ℕ, Bool, true, false, ◌&&◌, List, [], ◌∷◌, ◌++◌, leb, ◌==◌, if◌then◌else◌, length, Option, none,
  some,
}
use radio_cat_rs.Base.Bytes.{Bytes}
use radio_cat_rs.Udp.Codec.{SocketAddr}

abbrev pub dedup_cache_capacity : ℕ
dedup_cache_capacity = 256

-- The peer, the session id and the request id.
pub record Key : Type 0 where
  pub peer : SocketAddr
  pub session_id : ℕ
  pub request_id : ℕ

abbrev pub key_eq : Key → Key → Bool
key_eq a b = a.peer == b.peer && (a.session_id == b.session_id && a.request_id == b.request_id)

abbrev pub Responses : Type 0
Responses = List (Key × Bytes)

unfoldable pub lookup : Key → Responses → Option Bytes
lookup key [] = none
lookup key ((k, response) ∷ rest) = if key_eq k key then some response else lookup key rest

unfoldable pub remove : Key → Responses → Responses
remove key [] = []
remove key ((k, response) ∷ rest) =
    if key_eq k key then remove key rest else (k, response) ∷ remove key rest

abbrev pub is_some : Option Bytes → Bool
is_some none = false
is_some (some response) = true

abbrev pub contains_key : Key → Responses → Bool
contains_key key responses = is_some (lookup key responses)

pub record DedupCache : Type 0 where
  pub order : List Key
  pub responses : Responses

abbrev pub new : DedupCache
new = record { order = []; responses = [] }

abbrev pub get : Key → DedupCache → Option Bytes
get key cache = lookup key cache.responses

-- The oldest key is popped, and its response removed, where the cache is full.
unfoldable pub evict : DedupCache → DedupCache
evict cache =
    if leb dedup_cache_capacity (length cache.order)
    then elim cache.order [
      | [] ↦ cache
      | oldest ∷ order ↦ record { order = order; responses = remove oldest cache.responses }
    ]
    else cache

unfoldable pub admit : Key → DedupCache → DedupCache
admit key cache =
    if contains_key key cache.responses
    then cache
    else let room = evict cache in record room { order = room.order ++ (key ∷ []) }

-- `HashMap::insert` replaces the response of a key that is there.
unfoldable pub insert : Key → Bytes → DedupCache → DedupCache
insert key response cache =
    let admitted = admit key cache in
    record admitted { responses = (key, response) ∷ remove key admitted.responses }
