-- ===== src/App/Idempotency.antt =====
-- backend/slr/app/middleware/idempotency.py: the cache of responses to POST requests. `dispatch` gives
-- up control while it waits for the handler and for the body, so it is three steps, between which
-- other requests take theirs. A handler that raises past the error handlers of the application is not
-- modelled.
pub mod Replay
pub mod Interleaving
use train_seat_booking_syste.Prelude.{
  ℕ, ◌≡◌, Bool, true, false, String, ◌||◌, Option, none, some, List, [], ◌∷◌, ◌++◌, str_eq,
  bool_not, if◌then◌else◌,
}
use train_seat_booking_syste.Prelude.Dict.{Dict, lookup, insert}
use train_seat_booking_syste.Prelude.Digits.{concat}

-- `key` is the value of the header `idempotency-key`.
pub record Request : Type 0 where
  pub method : String
  pub path : String
  pub key : Option String
  pub content : List ℕ

-- What the handler streams back: the chunks of the body, encoded.
pub record Streamed : Type 0 where
  pub status_code : ℕ
  pub chunks : List (List ℕ)
  pub media_type : Option String
  pub headers : Dict String

pub record Response : Type 0 where
  pub status_code : ℕ
  pub body : List ℕ
  pub media_type : Option String
  pub headers : Dict String

-- the entry of a response: status, body and media type
abbrev pub Entry : Type 0
Entry = ℕ × List ℕ × String

abbrev pub join : List (List ℕ) → List ℕ
join [] = []
join (c ∷ cs) = c ++ join cs

-- `response.media_type or "application/json"`
abbrev pub media_or_json : Option String → String
media_or_json none = "application/json"
media_or_json (some m) = if str_eq m "" then "application/json" else m

abbrev pub answer_of : Streamed → Response
answer_of r = record {
  status_code = r.status_code;
  body = join r.chunks;
  media_type = r.media_type;
  headers = r.headers;
}

abbrev pub entry_of : Streamed → Entry
entry_of r = (r.status_code, join r.chunks, media_or_json r.media_type)

abbrev pub replay : Entry → Response
replay (status, body, media) = record {
  status_code = status;
  body = body;
  media_type = some media;
  headers = [];
}

-- The key under which a request is cached; `none` is a request that passes straight through.
unfoldable pub cache_key : Request → Option String
cache_key r = elim r.key [
  | none ↦ none
  | some key ↦
      if bool_not (str_eq r.method "POST") || str_eq key ""
      then none
      else some (concat r.method (concat " " (concat r.path (concat " " key))))
]

-- The cache, the state of the application, the requests that missed the cache and wait for the
-- handler, the responses of the handler that are not yet in the cache, and the responses sent.
pub record Server (S : Type 0) : Type 0 where
  pub cache : Dict Entry
  pub app : S
  pub waiting : List (String × Request)
  pub handled : List (String × Streamed)
  pub answered : List Response

-- `call_next`, the rest of the application, acts on a state of its own.
module _ {S : Type 0} (call_next : Request → S → Streamed × S) where
  abbrev pub missed : Request → String → Option Entry → Server S → Server S
  missed r k none t = record t { waiting = t.waiting ++ (k, r) ∷ [] }
  missed r k (some entry) t = record t { answered = t.answered ++ replay entry ∷ [] }

  abbrev pub looked_up : Request → Option String → Server S → Server S
  looked_up r none t =
      let (reply, app') = call_next r t.app in
      record t { app = app'; answered = t.answered ++ answer_of reply ∷ [] }
  looked_up r (some k) t = missed r k (lookup k t.cache) t

  -- `dispatch` up to its answer, or up to `await call_next(request)`
  unfoldable pub arrive : Request → Server S → Server S
  arrive r t = looked_up r (cache_key r) t

  -- the handler, for a request that waits; with the requests that still wait
  unfoldable pub run_handler : String → Request → List (String × Request) → Server S → Server S
  run_handler k r others t =
      let (reply, app') = call_next r t.app in
      record t { app = app'; waiting = others; handled = t.handled ++ (k, reply) ∷ [] }

  -- `dispatch` from the end of the body on, with the responses that are not yet in the cache
  unfoldable pub finish : String → Streamed → List (String × Streamed) → Server S → Server S
  finish k reply others t = record t {
    cache = insert k (entry_of reply) t.cache;
    handled = others;
    answered = t.answered ++ answer_of reply ∷ [];
  }

  -- The clients and the event loop choose what happens next.
  pub data Step : Server S → Server S → Type 0 where
    arrives : (r : Request) (t : Server S) → Step t (arrive r t)
    runs :
        (k : String) (r : Request) (before after : List (String × Request)) (t : Server S)
        → t.waiting ≡ before ++ (k, r) ∷ after
        → Step t (run_handler k r (before ++ after) t)
    finishes :
        (k : String) (reply : Streamed) (before after : List (String × Streamed)) (t : Server S)
        → t.handled ≡ before ++ (k, reply) ∷ after
        → Step t (finish k reply (before ++ after) t)

  pub data Reach (t : Server S) : Server S → Type 0 where
    here : Reach t t
    next : {u v : Server S} → Reach t u → Step u v → Reach t v

  pub arrive-miss :
      (r : Request) (k : String) (t : Server S)
      → cache_key r ≡ some k
      → lookup k t.cache ≡ none
      → arrive r t ≡ record t { waiting = t.waiting ++ (k, r) ∷ [] }
  unfolding arrive
  arrive-miss r k t e h = rw (e, h)

  pub arrive-hit :
      (r : Request) (k : String) (entry : Entry) (t : Server S)
      → cache_key r ≡ some k
      → lookup k t.cache ≡ some entry
      → arrive r t ≡ record t { answered = t.answered ++ replay entry ∷ [] }
  unfolding arrive
  arrive-hit r k entry t e h = rw (e, h)
