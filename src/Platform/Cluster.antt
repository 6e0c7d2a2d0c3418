-- ===== src/Platform/Cluster.antt =====
-- The Kubernetes API as internal/controller/axonopsplatform_controller.go reaches it: a store for
-- each kind of object, the calls of the controller's libraries, and a trace of what was written.
use axonops_operator.Prelude.{ℕ, String, Bool, Option, List, ◌∷◌}
use axonops_operator.Errors.{Error, Result, ok, err, wrap}
use axonops_operator.Json.{Json}
use axonops_operator.K8s.{Key}
use axonops_operator.Http.{M, updated}
use axonops_operator.Platform.Types.{Platform}
use axonops_operator.Platform.Objects.{
  Object, SecretContent, ServiceSpec, StatefulSetContent, DeploymentSpec, CertificateSpec,
  IssuerSpec, IngressSpec, HttpRouteSpec, GatewaySpec, StorageClass, Map, OwnerReference,
}

pub data Kind : Type 0 where
  secret service_account service config_map stateful_set deployment : Kind
  certificate cluster_issuer ingress http_route gateway : Kind

-- The objects of one kind. `create_or_update` is `controllerutil.CreateOrUpdate`: its mutation is
-- given the object as it is, or an empty one with the key where there is none.
pub record Store (W A : Type 0) : Type 0 where
  pub get : Key → W → Result (Object A) × W
  pub create_or_update : Key → (Object A → Result (Object A)) → W → Result (Unit {0}) × W
  pub delete : Key → W → Result (Unit {0}) × W

pub record Cluster (W : Type 0) : Type 0 where
  pub secrets : Store W SecretContent
  pub service_accounts : Store W (Option Bool)
  pub services : Store W ServiceSpec
  pub config_maps : Store W Map
  pub stateful_sets : Store W StatefulSetContent
  pub deployments : Store W DeploymentSpec
  pub certificates : Store W CertificateSpec
  pub cluster_issuers : Store W IssuerSpec
  pub ingresses : Store W IngressSpec
  pub http_routes : Store W HttpRouteSpec
  pub gateways : Store W GatewaySpec
  pub get_platform : Key → W → Result Platform × W
  pub update_platform : Platform → W → Result Platform × W
  pub update_status : Platform → W → Result Platform × W
  pub get_storage_class : String → W → Result StorageClass × W
  pub list_storage_classes : W → Result (List StorageClass) × W
  pub certificate_mapping : W → Result (Unit {0}) × W  -- `RESTMapping` of cert-manager's Certificate
  pub random_below : ℕ → W → Result ℕ × W  -- `rand.Int(rand.Reader, n)`

-- Functions of libraries that are not spelled out.
pub record Tools : Type 0 where
  pub quote : String → String  -- `%q`
  pub to_lower : String → String
  pub sha256_hex : String → String
  pub unmarshal : String → Result Json  -- `json.Unmarshal` to a map
  pub yaml : Json → Result String  -- `yaml.Marshal`
  pub debug : String  -- `os.Getenv("DEBUG")`
  pub cluster_issuer_name : String  -- the operator's flag
  -- `controllerutil.SetControllerReference`, from the owner's UID and the owners that are there
  pub set_controller_reference : String → List OwnerReference → Result (List OwnerReference)

-- What was written: an object that `CreateOrUpdate` was called for, one that was deleted, and the
-- resource itself or its status.
pub data Write : Type 0 where
  applied : Kind → Key → Write
  deleted : Kind → Key → Write
  platform_written : Platform → Write
  status_written : Platform → Write

-- A step that may fail. `do` stops at the first error.
abbrev pub Step : Type 0 → Type 0 → Type 0
Step W A = M W Write (Result A)

module _ {W A : Type 0} where
  abbrev pub return : A → Step W A
  return a s = (ok a, s)

  abbrev pub throw : Error → Step W A
  throw e s = (err e, s)

  -- `fmt.Errorf("text: %w", err)`
  abbrev pub annotate : String → Step W A → Step W A
  annotate text m s = let (r, s') = m s in (elim r [ err e ↦ err (wrap text e) | ok a ↦ ok a ], s')

  -- The error of a step as a value.
  abbrev pub attempt : Step W A → Step W (Result A)
  attempt m s = let (r, s') = m s in (ok r, s')

module _ {W A B : Type 0} where
  infixl 5 ◌>>=◌ ◌>>◌
  abbrev pub ◌>>=◌ : Step W A → (A → Step W B) → Step W B
  ◌>>=◌ m f s = let (r, s') = m s in elim r [ err e ↦ (err e, s') | ok a ↦ f a s' ]

  abbrev pub ◌>>◌ : Step W A → Step W B → Step W B
  m >> n = m >>= λ _. n

module _ {W A : Type 0} where
  abbrev query : (W → Result A × W) → Step W A
  query f s = let (r, w) = f s.world in (r, record s { world = w })

  abbrev record_write : Write → (W → Result A × W) → Step W A
  record_write c f s =
      let (r, w) = f s.world in (r, record s { world = w; calls = updated c ∷ s.calls })

module _ {W A : Type 0} where
  unfoldable pub get_object : Store W A → Key → Step W (Object A)
  get_object st k = query (st.get k)

  unfoldable pub apply_object :
      Store W A → Kind → Key → (Object A → Result (Object A)) → Step W (Unit {0})
  apply_object st kind k mutate = record_write (applied kind k) (st.create_or_update k mutate)

  unfoldable pub delete_object : Store W A → Kind → Key → Step W (Unit {0})
  delete_object st kind k = record_write (deleted kind k) (st.delete k)

module _ {W : Type 0} (c : Cluster W) where
  unfoldable pub get_platform : Key → Step W Platform
  get_platform k = query (c.get_platform k)

  unfoldable pub update_platform : Platform → Step W Platform
  update_platform p = record_write (platform_written p) (c.update_platform p)

  unfoldable pub update_status : Platform → Step W Platform
  update_status p = record_write (status_written p) (c.update_status p)

  unfoldable pub get_storage_class : String → Step W StorageClass
  get_storage_class n = query (c.get_storage_class n)

  unfoldable pub list_storage_classes : Step W (List StorageClass)
  list_storage_classes = query c.list_storage_classes

  unfoldable pub certificate_mapping : Step W (Unit {0})
  certificate_mapping = query c.certificate_mapping

  unfoldable pub random_below : ℕ → Step W ℕ
  random_below n = query (c.random_below n)
