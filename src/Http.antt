-- ===== src/Http.antt =====
-- What a reconciler reaches outside itself: the Kubernetes API server, the AxonOps API over HTTP,
-- and the clock. `Env` is a parameter of every model of a controller; `Run` is the state that a
-- reconcile threads, with a trace of what it sent and wrote, the last call first.
pub mod Trace
use axonops_operator.Prelude.{ℕ, String, Bool, Option, List, ◌∷◌}
use axonops_operator.Errors.{Result}
use axonops_operator.Json.{Json}
use axonops_operator.K8s.{Key}

-- What a request carries: a JSON value, or a form with one field that holds the text of one.
pub data Payload : Type 0 where
  json : Json → Payload
  form : String → Json → Payload

pub record Request : Type 0 where
  pub method : String
  pub url : String
  pub authorization : String
  pub content_type : Option String
  pub body : Option Payload

-- `body` is what `io.ReadAll` has read, `value` what JSON decoding makes of it.
pub record Response : Type 0 where
  pub status_code : ℕ
  pub body : String
  pub value : Result Json

pub data ℤ : Type 0 where
  pos : ℕ → ℤ
  negsuc : ℕ → ℤ

-- `url.URL`, as far as the program reads it
pub record Url : Type 0 where
  pub scheme : String
  pub host : String
  pub path : String

-- Parsers and printers of Go's standard library that are not spelled out.
pub record Std : Type 0 where
  pub quote : String → String  -- `%q`
  pub parse_duration : String → Result ℤ
  pub parse_url : String → Result Url
  pub any_json : Json → Json  -- a value that is decoded to `any` and encoded again

pub record SecretKeyRef : Type 0 where
  pub name : String
  pub key : String

-- `AxonOpsConnectionSpec`
pub record Connection : Type 0 where
  pub pause : Bool
  pub org_id : String
  pub api_key_ref : SecretKeyRef
  pub host : String
  pub protocol : String
  pub port : Option ℕ
  pub token_type : String
  pub tls_skip_verify : Bool
  pub use_saml : Bool
  pub timeout : String

-- `Secret.Data`
abbrev pub Secret : Type 0
Secret = List (String × String)

-- `O` is the kind of object that a controller reconciles, `W` the state of everything outside it.
-- An update answers with the object as the server keeps it.
pub record Env (W O : Type 0) : Type 0 where
  pub send : Request → W → Result Response × W
  pub get_connection : Key → W → Result Connection × W
  pub get_secret : Key → W → Result Secret × W
  pub get : Key → W → Result O × W
  pub update : O → W → Result O × W
  pub update_status : O → W → Result O × W
  pub now : W → ℕ × W
  pub new_uuid : W → String × W

pub data Call (O : Type 0) : Type 0 where
  sent : Request → Call O
  updated : O → Call O
  status_updated : O → Call O
  observed : String → String → Option String → Call O

pub record Run (W O : Type 0) : Type 0 where
  pub world : W
  pub calls : List (Call O)

abbrev pub M : Type 0 → Type 0 → Type 0 → Type 0
M W O A = Run W O → A × Run W O

module _ {W O A : Type 0} where
  abbrev pub pure : A → M W O A
  pure a s = (a, s)

module _ {W O A B : Type 0} where
  infixl 5 ◌>>=◌ ◌>>◌
  abbrev pub ◌>>=◌ : M W O A → (A → M W O B) → M W O B
  ◌>>=◌ m f s = let (a, s') = m s in f a s'

  abbrev pub ◌>>◌ : M W O A → M W O B → M W O B
  m >> n = m >>= λ _. n

module _ {W O A : Type 0} where
  -- A call of the environment, with what it leaves in the trace.
  abbrev call : (W → A × W) → Call O → M W O A
  call f c s = let (a, w) = f s.world in (a, record s { world = w; calls = c ∷ s.calls })

  abbrev query : (W → A × W) → M W O A
  query f s = let (a, w) = f s.world in (a, record s { world = w })

module _ {W O : Type 0} where
  abbrev pub note : Call O → M W O (Unit {0})
  note c s = (tt, record s { calls = c ∷ s.calls })

module _ {W O : Type 0} (e : Env W O) where
  unfoldable pub send : Request → M W O (Result Response)
  send r = call (e.send r) (sent r)

  unfoldable pub get : Key → M W O (Result O)
  get k = query (e.get k)

  unfoldable pub get_connection : Key → M W O (Result Connection)
  get_connection k = query (e.get_connection k)

  unfoldable pub get_secret : Key → M W O (Result Secret)
  get_secret k = query (e.get_secret k)

  unfoldable pub update : O → M W O (Result O)
  update o = call (e.update o) (updated o)

  unfoldable pub update_status : O → M W O (Result O)
  update_status o = call (e.update_status o) (status_updated o)

  unfoldable pub now : M W O ℕ
  now = query e.now

  -- `uuid.New().String()`
  unfoldable pub new_uuid : M W O String
  new_uuid = query e.new_uuid
