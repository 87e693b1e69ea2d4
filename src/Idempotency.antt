-- ===== src/Idempotency.antt =====
-- apps/api/idempotency.py: the middleware that answers a replayed write with the answer of the
-- first run. The view behind it, the SHA-256 of a fingerprint's text and the decoding of an
-- answer's bytes as UTF-8 with replacements are parameters.
pub mod Replay
use schapp.Base.{
  ℕ, ◌+◌, Bool, true, false, ◌&&◌, not, Option, none, some, List, [], ◌∷◌, ◌==◌, ltb, leb, any,
  find, map_if, select, is_some, or_else, if◌then◌else◌, length, Text, codes, text_eq, starts_with,
  take, ◌++◌, ◌||◌,
}

pub data Method : Type 0 where
  get : Method
  head : Method
  options : Method
  post : Method
  put : Method
  patch : Method
  delete : Method

-- `UNSAFE_METHODS`
abbrev pub is_unsafe : Method → Bool
is_unsafe Method.post = true
is_unsafe Method.put = true
is_unsafe Method.patch = true
is_unsafe Method.delete = true
is_unsafe _ = false

abbrev pub method_text : Method → Text
method_text Method.get = codes "GET"
method_text Method.head = codes "HEAD"
method_text Method.options = codes "OPTIONS"
method_text Method.post = codes "POST"
method_text Method.put = codes "PUT"
method_text Method.patch = codes "PATCH"
method_text Method.delete = codes "DELETE"

abbrev pub max_key_length : ℕ
max_key_length = 190

-- `key` is the header's value, stripped; empty where there is none.
pub record Request : Type 0 where
  pub key : Text
  pub method : Method
  pub path : Text
  pub body : Text
  pub content_type : Text

pub record Response : Type 0 where
  pub status_code : ℕ
  pub content : Text
  pub content_type : Text
  pub streaming : Bool
  pub replayed : Bool
  pub retry_after : Option ℕ

-- `IdempotencyRecord` (apps/api/models.py)
pub record IdempotencyRecord : Type 0 where
  pub key : Text
  pub method : Method
  pub path : Text
  pub request_fingerprint : Text
  pub status_code : Option ℕ
  pub response_body : Text
  pub content_type : Text
  pub completed_at : Option ℕ

-- What the view and the middleware share: the claims, and the rest of the database.
pub record World (D : Type 0) : Type 0 where
  pub records : List IdempotencyRecord
  pub database : D

-- A view answers, or raises.
pub data Answer : Type 0 where
  answered : Response → Answer
  raised : Answer

abbrev pub error_response : ℕ → Text → Response
error_response status code = record {
  status_code = status;
  content = code;
  content_type = codes "application/json";
  streaming = false;
  replayed = false;
  retry_after = none;
}

abbrev pub in_progress : Response
in_progress = record (error_response 409 (codes "IDEMPOTENCY_IN_PROGRESS")) { retry_after = some 2 }

abbrev pub key_invalid : Response
key_invalid = error_response 400 (codes "IDEMPOTENCY_KEY_INVALID")

abbrev pub key_reused : Response
key_reused = error_response 422 (codes "IDEMPOTENCY_KEY_REUSED")

abbrev or_json : Text → Text
or_json [] = codes "application/json"
or_json (c ∷ cs) = c ∷ cs

unfoldable pub replay : IdempotencyRecord → Response
replay existing = record {
  status_code = or_else existing.status_code 200;
  content = existing.response_body;
  content_type = or_json existing.content_type;
  streaming = false;
  replayed = true;
  retry_after = none;
}

unfoldable pub find_record : Text → List IdempotencyRecord → Option IdempotencyRecord
find_record key = find (λ r. text_eq r.key key)

module _ (sha256 : Text → Text) where
  unfoldable pub fingerprint : Request → Text
  fingerprint request =
      sha256 (method_text request.method ++ 0 ∷ (request.path ++ 0 ∷ request.body))

  -- The row that `_claim` inserts.
  abbrev pub claimed : Request → IdempotencyRecord
  claimed request = record {
    key = request.key;
    method = request.method;
    path = take 500 request.path;
    request_fingerprint = fingerprint request;
    status_code = none;
    response_body = [];
    content_type = [];
    completed_at = none;
  }

  -- What the row that holds the key already means for `request`.
  unfoldable pub conflict_with : Request → IdempotencyRecord → Response
  conflict_with request existing =
      if not (text_eq existing.request_fingerprint (fingerprint request))
      then key_reused
      else if not (is_some existing.completed_at)
      then in_progress
      else replay existing

unfoldable pub release : Text → List IdempotencyRecord → List IdempotencyRecord
release key = select (λ r. not (text_eq r.key key))

abbrev pub is_success_code : ℕ → Bool
is_success_code code = leb 200 code && ltb code 300

-- `_remember`: the answer kept, or the claim released.
abbrev pub is_dropped : Response → Bool
is_dropped response = response.streaming || not (is_success_code response.status_code)

module _ (decode : Text → Text) where
  abbrev pub answered_claim : ℕ → Response → IdempotencyRecord → IdempotencyRecord
  answered_claim now response self = record self {
    status_code = some response.status_code;
    response_body = decode response.content;
    content_type = take 100 response.content_type;
    completed_at = some now;
  }

  unfoldable pub remember : ℕ → Text → Response → List IdempotencyRecord → List IdempotencyRecord
  unfolding release
  remember now key response records =
      if is_dropped response
      then release key records
      else map_if (λ r. text_eq r.key key) (answered_claim now response) records

abbrev is_empty_text : Text → Bool
is_empty_text [] = true
is_empty_text (_ ∷ _) = false

-- Requests that the middleware passes on as they are.
unfoldable pub passes : Request → Bool
passes request =
    is_empty_text request.key
    || not (is_unsafe request.method)
    || starts_with (codes "multipart/") request.content_type

-- What follows the view: the claim released where it raised, and `_remember` where it answered.
abbrev pub ended : {D : Type 0} → (Text → Text) → ℕ → Text → Answer → World D → Answer × World D
ended decode now key raised w = (raised, record w { records = release key w.records })
ended decode now key (answered response) w =
    (answered response, record w { records = remember decode now key response w.records })

module _ {D : Type 0} (sha256 decode : Text → Text)
    (get_response : Request → World D → Answer × World D) where
  -- The run of the view under a claim that has just been inserted.
  unfoldable pub run_claimed : ℕ → Request → World D → Answer × World D
  unfolding remember release
  run_claimed now request w =
      let result =
        get_response request (record w { records = claimed sha256 request ∷ w.records }) in
      ended decode now request.key result.0 result.1

  -- `IdempotencyMiddleware.__call__`
  unfoldable pub call : ℕ → Request → World D → Answer × World D
  unfolding passes conflict_with run_claimed
  call now request w =
      if passes request
      then get_response request w
      else if ltb max_key_length (length request.key)
      then (answered key_invalid, w)
      else elim (find_record request.key w.records) [
        | some existing ↦ (answered (conflict_with sha256 request existing), w)
        | none ↦ run_claimed now request w
      ]
