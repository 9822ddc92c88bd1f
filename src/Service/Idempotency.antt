-- ===== src/Service/Idempotency.antt =====
-- authz_service/middleware.py: `_MemoryIdempotencyStore` and `IdempotencyMiddleware`. SHA-256 is a
-- parameter; the handler behind the middleware is a function of a state. Times are milliseconds; a
-- response's other headers than the content type are left out.
pub mod Bounds
pub mod Replay
use Prim.Native.String.{◌++◌}
use authz.Base.{
  ℕ, zero, suc, ◌+◌, String, Bool, true, false, not, ◌&&◌, Option, none, some, List, [], ◌∷◌, Dict,
  lookup, insert, remove, ltb, leb, take, is_blank, ◌==◌, string_eq, if◌then◌else◌,
}

pub record Entry : Type 0 where
  pub status : ℕ
  pub body : String
  pub content_type : String
  pub expires_at : ℕ

abbrev pub Cache : Type 0
Cache = Dict String Entry

-- `len(self._cache)`
unfoldable pub size : Cache → ℕ
size [] = 0
size (e ∷ cache) = 1 + size cache

-- The first of the entries that expire soonest, by its key.
abbrev sooner : String × Entry → Option (String × Entry) → Option (String × Entry)
sooner this none = some this
sooner this (some other) =
    if ltb (other.1).expires_at (this.1).expires_at then some other else some this

unfoldable pub oldest : Cache → Option (String × Entry)
oldest [] = none
oldest (e ∷ cache) = let rest = oldest cache in sooner e rest

abbrev pub without : Option (String × Entry) → Cache → Cache
without none cache = cache
without (some (key, entry)) cache = remove key cache

-- `while len(self._cache) > self._max`, on fuel
unfoldable pub evict : (fuel max_entries : ℕ) → Cache → Cache
evict zero max_entries cache = cache
evict (suc fuel) max_entries cache =
    let rest = evict fuel max_entries (without (oldest cache) cache) in
    if ltb max_entries (size cache) then rest else cache

-- `put`; a turn of the loop takes an entry away, so that there are no more turns than entries.
unfoldable pub put :
    (max_entries : ℕ)
    → (now : ℕ) → (key : String) → (status : ℕ) → (body content_type : String) → (ttl : ℕ) → Cache
    → Cache
put max_entries now key status body content_type ttl cache =
    let entry : Entry = record {
      status = status;
      body = body;
      content_type = content_type;
      expires_at = now + ttl;
    } in
    let grown = insert key entry cache in evict (size grown) max_entries grown

-- `get`: what is stored and not over, and the cache
unfoldable pub get : (now : ℕ) → String → Cache → Option Entry × Cache
get now key cache = elim (lookup key cache) [
  | none ↦ (none, cache)
  | some entry ↦ if leb entry.expires_at now then (none, remove key cache) else (some entry, cache)
]

-- ---- The middleware

pub record PostRequest : Type 0 where
  pub method : String
  pub path : String
  pub idempotency_key : Option String
  pub x_api_key : String
  pub authorization : String
  pub session_cookie : String

pub record Response : Type 0 where
  pub status_code : ℕ
  pub body : String
  pub content_type : Option String
  pub replayed : Bool

-- `_credential_partition`
unfoldable pub credential_partition : (hash : String → String) → PostRequest → String
credential_partition hash request = take 32 (
    hash (
      "x="
      ++ (request.x_api_key
          ++ ("|a=" ++ (request.authorization ++ ("|s=" ++ request.session_cookie))))))

-- `response.headers.get("content-type", "application/json")`
abbrev pub content_type_or : Option String → String
content_type_or none = "application/json"
content_type_or (some content_type) = content_type

unfoldable pub cache_key :
    (hash : String → String) → PostRequest → (idempotency_key : String) → String
cache_key hash request idempotency_key =
    credential_partition hash request ++ (":" ++ (request.path ++ (":" ++ idempotency_key)))

abbrev pub usable : Option String → Option String
usable none = none
usable (some key) = if is_blank key then none else some key

module _ (hash : String → String) (max_entries ttl : ℕ) {State : Type 0}
    (call_next : PostRequest → State → Response × State) where
  abbrev pub stored : (now : ℕ) → String → Response → Cache → Cache
  stored now key response cache =
      if leb 200 response.status_code && ltb response.status_code 500
      then put max_entries now key response.status_code response.body
          (content_type_or response.content_type) ttl cache
      else cache

  abbrev called : (now : ℕ) → String → Response × State → Cache → Response × Cache × State
  called now key (response, after) cache = (response, stored now key response cache, after)

  abbrev answered :
      (now : ℕ) → PostRequest → String → Option Entry × Cache → State → Response × Cache × State
  answered now request key (some entry, cache) state = (
    record {
      status_code = entry.status;
      body = entry.body;
      content_type = some entry.content_type;
      replayed = true;
    },
    cache,
    state,
  )
  answered now request key (none, cache) state = called now key (call_next request state) cache

  abbrev keyed : (now : ℕ) → PostRequest → Option String → Cache → State → Response × Cache × State
  keyed now request none cache state =
      let (response, after) = call_next request state in (response, cache, after)
  keyed now request (some idempotency_key) cache state =
      let key = cache_key hash request idempotency_key in
      answered now request key (get now key cache) state

  -- `dispatch`
  unfoldable pub dispatch : (now : ℕ) → PostRequest → Cache → State → Response × Cache × State
  dispatch now request cache state =
      if request.method == "POST"
      then keyed now request (usable request.idempotency_key) cache state
      else keyed now request none cache state
