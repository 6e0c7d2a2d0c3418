-- ===== src/Tests/Fake.antt =====
-- The parameters of the models at concrete values: the Kubernetes functions over lists, with the
-- laws assumed of them, and a world that holds one object and a script of answers of the API.
use axonops_operator.Prelude.{
  ℕ, ◌+◌, String, ◌≡◌, ◌≢◌, refl, Bool, true, false, Option, none, some, List, [], ◌∷◌, ◌==◌,
  eq_iff, eq_refl, arith, if◌then◌else◌,
}
use axonops_operator.Errors.{Error, foreign, Result, ok, err}
use axonops_operator.Json.{object, end}
use axonops_operator.K8s.{Key, ObjectMeta, Condition, K8s, IsLawful}
use axonops_operator.Http.{Connection, Secret, Response, Std, Env, Run, pos}
use axonops_operator.Client.{Client}

abbrev pub find : List Condition → String → Option Condition
find [] t = none
find (c ∷ cs) t = if c.type == t then some c else find cs t

abbrev pub remove : List Condition → String → List Condition
remove [] t = []
remove (c ∷ cs) t = let rest = remove cs t in if c.type == t then rest else c ∷ rest

abbrev pub contains : List String → String → Bool
contains [] f = false
contains (g ∷ gs) f = if g == f then true else contains gs f

abbrev pub without : List String → String → List String
without [] f = []
without (g ∷ gs) f = let rest = without gs f in if g == f then rest else g ∷ rest

abbrev pub says : String → Error → Bool
says text (foreign t) = t == text
says text _ = false

abbrev pub fake_k8s : K8s
fake_k8s = record {
  find_status_condition = find;
  set_status_condition = λ cs c. c ∷ remove cs c.type;
  remove_status_condition = remove;
  contains_finalizer = contains;
  add_finalizer = λ fs f. f ∷ fs;
  remove_finalizer = without;
  ignore_not_found = λ e. if says "not found" e then none else some e;
  is_not_found = says "not found";
  is_conflict = says "conflict";
  is_timeout = says "timeout";
  is_server_timeout = says "server timeout";
  is_invalid = says "invalid";
  is_internal_error = says "internal error";
}

find-remove_self : (cs : List Condition) (t : String) → find (remove cs t) t ≡ none
find-remove_self [] t = refl
find-remove_self (c ∷ cs) t = ground (arith, find-remove_self cs t)

find-remove_ne : (cs : List Condition) (t u : String) → t ≢ u → find (remove cs t) u ≡ find cs u
find-remove_ne [] t u h = refl
find-remove_ne (c ∷ cs) t u h =
    ground (arith, find-remove_ne cs t u h, eq_iff c.type t, eq_iff c.type u)

contains-without : (fs : List String) (f : String) → contains (without fs f) f ≡ false
contains-without [] f = refl
contains-without (g ∷ gs) f = ground (arith, contains-without gs f)

find-set_ne :
    (cs : List Condition) (c : Condition) (t : String)
    → c.type ≢ t
    → find (c ∷ remove cs c.type) t ≡ find cs t
find-set_ne cs c t h = ground (arith, eq_iff c.type t, find-remove_ne cs c.type t h)

pub fake_k8s-IsLawful : IsLawful fake_k8s
fake_k8s-IsLawful = record {
  find-set_self = λ cs c. rw (eq_refl c.type);
  find-set_ne = find-set_ne;
  find-remove_self = find-remove_self;
  find-remove_ne = find-remove_ne;
  contains-add = λ fs f. rw (eq_refl f);
  contains-remove = contains-without;
  ignore_not_found_lem = λ e. refl;
}

abbrev pub fake_std : Std
fake_std = record {
  quote = λ t. t;
  parse_duration = λ t. ok (pos 5);
  parse_url = λ t. ok (record { scheme = "https"; host = "dash.axonops.cloud"; path = "/acme" });
  any_json = λ v. v;
}

-- One object, one connection, its secret, the answers that the API will give, and the clock.
pub record Fake (O : Type 0) : Type 0 where
  pub object : Option O
  pub connection : Connection
  pub secret : Secret
  pub answers : List (Result Response)
  pub clock : ℕ

abbrev pub absent : {A : Type 0} → Option A → Result A
absent none = err (foreign "not found")
absent (some a) = ok a

abbrev pub answer : {O : Type 0} → List (Result Response) → Fake O → Result Response × Fake O
answer [] w = (err (foreign "connection refused"), w)
answer (a ∷ as') w = (a, record w { answers = as' })

abbrev pub fake_env : {O : Type 0} → Env (Fake O) O
fake_env = record {
  send = λ r w. answer w.answers w;
  get_connection = λ k w. (ok w.connection, w);
  get_secret = λ k w. (ok w.secret, w);
  get = λ k w. (absent w.object, w);
  update = λ o w. (ok o, record w { object = some o });
  update_status = λ o w. (ok o, record w { object = some o });
  now = λ w. (w.clock, record w { clock = w.clock + 1 });
  new_uuid = λ w. ("u-new", w);
}

abbrev pub acme : Connection
acme = record {
  pause = false;
  org_id = "acme";
  api_key_ref = record { name = "keys"; key = "" };
  host = "";
  protocol = "";
  port = none;
  token_type = "";
  tls_skip_verify = false;
  use_saml = false;
  timeout = "";
}

abbrev pub keys : Secret
keys = ("api_key", "s3cret") ∷ []

abbrev pub acme_client : Client
acme_client = record {
  timeout = pos 30_000_000_000;
  verbose = false;
  tls_skip_verify = false;
  base_url = "https://dash.axonops.cloud/acme";
  org_id = "acme";
  api_key = "s3cret";
  token_type = "Bearer";
}

abbrev pub meta_at : ℕ → List String → ObjectMeta
meta_at generation finalizers = record {
  namespace = "apps";
  name = "events";
  generation = generation;
  resource_version = "7";
  deletion_timestamp = none;
  finalizers = finalizers;
}

abbrev pub key : Key
key = record { namespace = "apps"; name = "events" }

abbrev pub reply : ℕ → Result Response
reply status = ok (record { status_code = status; body = "{}"; value = ok (object end) })

abbrev pub world : {O : Type 0} → Option O → List (Result Response) → Fake O
world o as' = record { object = o; connection = acme; secret = keys; answers = as'; clock = 100 }

abbrev pub start : {O : Type 0} → Fake O → Run (Fake O) O
start w = record { world = w; calls = [] }
