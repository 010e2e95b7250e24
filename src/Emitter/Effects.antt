-- ===== src/Emitter/Effects.antt =====
-- Statements of the emitter: they send requests, read the clock, collect rows and may raise. What
-- was done before an exception stays done.
use krateo_openstack_bluepri.Prelude.{
  ℕ, String, Bool, not, ◌&&◌, Option, none, some, List, [], ◌∷◌, ◌++◌, ◌≡◌, refl, if◌then◌else◌,
  insert, is_empty, Result, return, raise, Exception, http_error, timed_out, other_error,
  system_exit, value_error, Value,
}
use text.Mathlib.Text.{starts_with}
use krateo_openstack_bluepri.Emitter.Config.{Environ, env_is}

pub data Body : Type 0 where
  no_body : Body
  json : Value → Body
  -- one document to a line
  lines : List Value → Body

pub record Request : Type 0 where
  pub method : String
  pub url : String
  pub query : List (String × String)
  pub headers : List (String × String)
  pub body : Body
  pub timeout : ℕ
  pub verified : Bool

pub data Reply : Type 0 where
  answered : (status : ℕ) (headers : List (String × String)) (body : String) → Reply
  refused_with : ℕ → Reply
  no_answer : Reply
  broke : String → Reply

-- What the program meets: HTTP servers, which may answer by all that was sent before, and the
-- standard library's JSON parser, hash and floats.
pub record Outside : Type 0 where
  pub send : List Request → Request → Reply
  pub loads : String → Option Value
  pub sha256 : String → String
  pub first_32 : String → String
  -- `float` of a text or of a number's digits, and `sum` of floats
  pub float_text : String → Option String
  pub float_sum : List String → String
  -- the class of what a URL that is no text makes urllib or `ssl_context` raise
  pub refuses_url : Value → String

pub record UsageRow : Type 0 where
  pub record_id : String
  pub org : String
  pub tenant : String
  pub service : String
  pub resource_id : String
  pub metric : String
  -- a float, as Python shows it
  pub quantity : String
  pub unit : String
  pub window_start : String
  pub window_end : String
  pub tags : List (String × String)
  pub source : String

pub data Status : Type 0 where
  good warning unknown critical : Status

pub record HealthRow : Type 0 where
  pub record_id : String
  pub org : String
  pub tenant : String
  pub service : String
  pub component : String
  pub status : Status
  pub reason : String
  pub checked_at : String

-- `rows` of the collectors, the requests sent, the warnings logged and the clock readings made.
pub record State : Type 0 where
  pub sent : List Request
  pub warnings : List (String × Exception)
  pub usage : List UsageRow
  pub health : List HealthRow

abbrev pub Action : Type 0 → Type 0
Action A = State → Result A × State

module _ {A : Type 0} where
  abbrev pub pure : A → Action A
  pure a s = (return a, s)

  abbrev pub throw : Exception → Action A
  throw e s = (raise e, s)

  abbrev pub lift : Result A → Action A
  lift r s = (r, s)

abbrev pub modify : (State → State) → Action (Unit {0})
modify f s = (return tt, f s)

module _ {A B : Type 0} where
  abbrev pub and_do : Result A → (A → Action B) → Action B
  and_do (return a) f = f a
  and_do (raise e) f = throw e

  infixl 5 ◌>>=◌ ◌>>◌
  abbrev pub ◌>>=◌ : Action A → (A → Action B) → Action B
  m >>= f = λ s. let (r, t) = m s in and_do r f t

  abbrev pub ◌>>◌ : Action A → Action B → Action B
  m >> n = m >>= λ _. n

  -- `try`: what follows is given the result or the exception.
  abbrev pub attempt : Action A → (Result A → Action B) → Action B
  attempt m k s = let (r, t) = m s in k r t

  -- Inversion of a sequence that returns.
  pub >>=-eq-return :
      (m : Action A) (f : A → Action B) (s t : State) (b : B)
      → (m >>= f) s ≡ (return b, t)
      → (a : A) × (u : State) × (m s ≡ (return a, u)) × (f a u ≡ (return b, t))
  >>=-eq-return m f s t b h = from (m s) refl h
    where
      from :
          (p : Result A × State)
          → m s ≡ p
          → and_do p.0 f p.1 ≡ (return b, t)
          → (a : A) × (u : State) × (m s ≡ (return a, u)) × (f a u ≡ (return b, t))
      from (return a, u) e k = (a, u, e, k)
      from (raise x, u) e k = cc

  pub lift-eq-return :
      (r : Result A) (f : A → Action B) (s t : State) (b : B)
      → (lift r >>= f) s ≡ (return b, t)
      → (a : A) × (r ≡ return a) × (f a s ≡ (return b, t))
  lift-eq-return (return a) f s t b h = (a, refl, h)
  lift-eq-return (raise e) f s t b h = cc

-- `except Exception as e: log(...)`, which SystemExit passes.
abbrev recover : String → Result (Unit {0}) → Action (Unit {0})
recover what (return a) = pure a
recover what (raise (system_exit m)) = throw (system_exit m)
recover what (raise e) = modify (λ s. record s { warnings = s.warnings ++ (what, e) ∷ [] })

abbrev pub best_effort : String → Action (Unit {0}) → Action (Unit {0})
best_effort what body s = let (r, t) = body s in recover what r t

-- What `urlopen` returns or raises, with the request entered in the log.
abbrev pub Received : Type 0
Received = ℕ × List (String × String) × String

abbrev pub outcome : Reply → Result Received
outcome (answered status headers body) = return (status, headers, body)
outcome (refused_with code) = raise (http_error code)
outcome no_answer = raise timed_out
outcome (broke name) = raise (other_error name)

-- `ssl_context`: whether certificates are verified
abbrev pub verifies : Environ → String → Bool
verifies env url = not (starts_with url "https" && env_is env "TLS_VERIFY" "true" "false")

-- `dict.update`
update : List (String × String) → List (String × String) → List (String × String)
update m [] = m
update m ((k, v) ∷ more) = update (insert k v m) more

content_type : Option String → List (String × String)
content_type none = ("Content-Type", "application/json") ∷ []
content_type (some token) = ("Content-Type", "application/json") ∷ ("X-Auth-Token", token) ∷ []

-- `if token:` takes an empty token for none.
unfoldable pub request_headers : Option String → List (String × String) → List (String × String)
unfolding update content_type
request_headers none more = update (content_type none) more
request_headers (some token) more =
    update (content_type (if is_empty token then none else some token)) more

module _ (out : Outside) (env : Environ) where
  unfoldable pub request :
      String
      → String
      → List (String × String)
      → Option String
      → Body
      → List (String × String)
      → ℕ
      → Action Received
  unfolding request_headers
  request method url query token body headers timeout s =
      let r : Request = record {
        method = method;
        url = url;
        query = query;
        headers = request_headers token headers;
        body = body;
        timeout = timeout;
        verified = verifies env url;
      } in
      (outcome (out.send s.sent r), record s { sent = s.sent ++ r ∷ [] })

  abbrev parsed : Option Value → Action Value
  parsed none = throw value_error
  parsed (some v) = pure v

  unfoldable pub get_json : String → String → Action Value
  unfolding request
  get_json url token = do
    reply ← request "GET" url [] (some token) no_body [] 15
    parsed (out.loads reply.2)
