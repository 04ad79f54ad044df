-- ===== src/Crd.antt =====
-- The custom resource, api/v1alpha1/horreum_types.go. A field that Go leaves empty is "" or 0, as
-- there; a pointer is an Option. `metav1.Time` is an instant that the operator only stores.
use horreum_operator.Common.{ℕ, String, Bool, Option}
use horreum_operator.Common.Int.{ℤ}
use horreum_operator.Objects.{ObjectMeta}

pub record DatabaseSpec : Type 0 where
  pub host : String
  pub port : ℤ
  pub name : String
  pub secret : String

pub record RouteSpec : Type 0 where
  pub host : String
  pub type : String
  pub tls : String

pub record ExternalSpec : Type 0 where
  pub public_uri : String
  pub internal_uri : String

pub record KeycloakSpec : Type 0 where
  pub external : ExternalSpec
  pub image : String
  pub route : RouteSpec
  pub service_type : String
  pub admin_secret : String
  pub database : DatabaseSpec

pub record PostgresSpec : Type 0 where
  pub enabled : Option Bool
  pub image : String
  pub admin_secret : String
  pub persistent_volume_claim : String
  pub user : Option ℤ

pub record HorreumSpec : Type 0 where
  pub admin_secret : String
  pub route : RouteSpec
  pub service_type : String
  pub image : String
  pub database : DatabaseSpec
  pub keycloak : KeycloakSpec
  pub postgres : PostgresSpec
  pub node_host : String

abbrev pub Time : Type 0
Time = ℕ

pub record HorreumStatus : Type 0 where
  pub status : String
  pub last_update : Time
  pub reason : String
  pub public_url : String
  pub keycloak_url : String

pub record Horreum : Type 0 where
  pub metadata : ObjectMeta
  pub spec : HorreumSpec
  pub status : HorreumStatus

-- The fields of `HorreumReconciler` that the builders read; its client is `Cluster.Api`.
pub record HorreumReconciler : Type 0 where
  pub routes_available : Bool
  pub use_red_hat_images : Bool
