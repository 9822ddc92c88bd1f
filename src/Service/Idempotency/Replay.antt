-- ===== src/Service/Idempotency/Replay.antt =====
-- authz_service/middleware.py: a repeated POST is answered from the cache.
use authz.Base.{
  ℕ, suc, zero, ◌+◌, ◌≤◌, ◌<◌, String, true, false, ◌&&◌, none, some, lookup, lookup-insert, insert,
  ltb, leb, ◌==◌, ==-refl, string_eq, ◌≡◌, refl, sym, ◌∙◌, arith,
}
use authz.Service.Idempotency.{
  Entry, Cache, size, evict, put, get, PostRequest, Response, cache_key, usable, content_type_or,
  stored, dispatch,
}

evict_room :
    (fuel max_entries : ℕ) (cache : Cache)
    → size cache ≤ max_entries
    → evict fuel max_entries cache ≡ cache
unfolding evict
evict_room zero max_entries cache room = refl
evict_room (suc fuel) max_entries cache room =
    let fits : ltb max_entries (size cache) ≡ false = ground arith in rw fits refl

get_live :
    (now : ℕ) (key : String) (cache : Cache) (entry : Entry)
    → lookup key cache ≡ some entry
    → leb entry.expires_at now ≡ false
    → get now key cache ≡ (some entry, cache)
unfolding get
get_live now key cache entry found live = rw (get, found, live) refl

module _ (hash : String → String) (max_entries ttl : ℕ) {State : Type 0}
    (call_next : PostRequest → State → Response × State) where
  -- The answer of the handler, as it is stored.
  abbrev pub entry_of : (now : ℕ) → Response → Entry
  entry_of now r = record {
    status = r.status_code;
    body = r.body;
    content_type = content_type_or r.content_type;
    expires_at = now + ttl;
  }

  put_room :
      (now : ℕ) (k : String) (r : Response) (cache : Cache)
      → size (insert k (entry_of now r) cache) ≤ max_entries
      → put max_entries now k r.status_code r.body (content_type_or r.content_type) ttl cache
        ≡ insert k (entry_of now r) cache
  unfolding put
  put_room now k r cache room =
      evict_room (size (insert k (entry_of now r) cache)) max_entries
        (insert k (entry_of now r) cache) room

  -- A POST with an idempotency key that the handler has answered, with a status from 200 to 499, is
  -- answered from the cache when it is repeated before the time has run out, where the cache has had room
  -- for the entry: the same status, body and content type
  -- (`application/json` where the handler gave none), and the handler is not called again.
  pub dispatch-dispatch :
      (now later : ℕ) (request : PostRequest) (key : String) (cache after : Cache)
      (state state' : State) (r : Response)
      → (request.method == "POST") ≡ true
      → usable request.idempotency_key ≡ some key
      → (get now (cache_key hash request key) cache).0 ≡ none
      → dispatch hash max_entries ttl call_next now request cache state ≡ (r, after, state')
      → (leb 200 r.status_code && ltb r.status_code 500) ≡ true
      → size (
          insert
            (cache_key hash request key)
            (entry_of now r)
            (get now (cache_key hash request key) cache).1)
        ≤ max_entries
      → later < now + ttl
      → (state'' : State)
      → dispatch hash max_entries ttl call_next later request after state'' ≡ (
        record {
          status_code = r.status_code;
          body = r.body;
          content_type = some (content_type_or r.content_type);
          replayed = true;
        },
        after,
        state'',
      )
  unfolding dispatch
  dispatch-dispatch now later request key cache after state state' r post keyed fresh first_call
        answered room in_time state'' =
      let k = cache_key hash request key in
      let left = (get now k cache).1 in
      let unrolled = rw (dispatch, post, keyed, fresh) at first_call in
      let answer = (call_next request state).0 in
      let is_r : answer ≡ r = ground arith in
      let is_after : stored hash max_entries ttl call_next now k answer left ≡ after =
        ground arith in
      let here : stored hash max_entries ttl call_next now k r left ≡ after = rw is_r at is_after in
      let is_put = rw answered at here in
      let is_insert : insert k (entry_of now r) left ≡ after =
        sym (put_room now k r left room) ∙ is_put in
      let found : lookup k after ≡ some (entry_of now r) =
        rw⁻¹ is_insert (rw (lookup-insert k k (entry_of now r) left, ==-refl k) refl) in
      let live : leb (now + ttl) later ≡ false = ground arith in
      rw (dispatch, post, keyed, get_live later k after (entry_of now r) found live) refl
