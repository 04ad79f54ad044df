-- ===== src/Objects/Records.antt =====
-- The Kubernetes and OpenShift objects that controllers/*.go builds, compares and reads, with the
-- fields that the code names. Go's `int32` and `int64` are integers, `[]byte` is a text.
use horreum_operator.Common.{String, Bool, Option, List, Dict}
use horreum_operator.Common.Int.{ℤ}

pub record OwnerReference : Type 0 where
  pub name : String
  pub controller : Bool

pub record ObjectMeta : Type 0 where
  pub name : String
  pub namespace : String
  pub labels : Dict String String
  pub annotations : Dict String String
  pub owner_references : List OwnerReference

pub record SecretKeySelector : Type 0 where
  pub key : String
  pub optional : Option Bool
  pub name : String

-- `ValueFrom` is nil, or holds the one source that the operator uses.
pub record EnvVar : Type 0 where
  pub name : String
  pub value : String
  pub value_from : Option SecretKeySelector

pub record ContainerPort : Type 0 where
  pub name : String
  pub container_port : ℤ

pub record VolumeMount : Type 0 where
  pub name : String
  pub mount_path : String
  pub sub_path : String

pub record Container : Type 0 where
  pub name : String
  pub image : String
  pub image_pull_policy : String
  pub command : List String
  pub env : List EnvVar
  pub ports : List ContainerPort
  pub volume_mounts : List VolumeMount
  pub run_as_user : Option ℤ

-- Exactly one of the pointers of `VolumeSource` is set.
pub data VolumeSource : Type 0 where
  secret_volume : String → VolumeSource
  config_map_volume : String → VolumeSource
  claim_volume : String → VolumeSource
  empty_dir : VolumeSource

pub record Volume : Type 0 where
  pub name : String
  pub source : VolumeSource

pub record PodSpec : Type 0 where
  pub termination_grace_period_seconds : Option ℤ
  pub init_containers : List Container
  pub fs_group : Option ℤ
  pub containers : List Container
  pub volumes : List Volume

-- `State.Waiting` with its reason, and whether `State.Terminated` is set.
pub record ContainerStatus : Type 0 where
  pub waiting : Option String
  pub terminated : Bool

pub record Condition : Type 0 where
  pub type : String
  pub status : String

pub record PodStatus : Type 0 where
  pub container_statuses : List ContainerStatus
  pub conditions : List Condition

pub record Pod : Type 0 where
  pub metadata : ObjectMeta
  pub spec : PodSpec
  pub status : PodStatus

pub record ServicePort : Type 0 where
  pub name : String
  pub port : ℤ
  pub target_port : ℤ
  pub node_port : ℤ

pub record ServiceSpec : Type 0 where
  pub type : String
  pub ports : List ServicePort
  pub selector : Dict String String

pub record LoadBalancerIngress : Type 0 where
  pub ip : String
  pub hostname : String
  pub ports : List ℤ

pub record Service : Type 0 where
  pub metadata : ObjectMeta
  pub spec : ServiceSpec
  pub ingress : List LoadBalancerIngress

pub record Secret : Type 0 where
  pub metadata : ObjectMeta
  pub type : String
  pub data_map : Dict String String
  pub string_data : Dict String String

pub record ConfigMap : Type 0 where
  pub metadata : ObjectMeta
  pub data_map : Dict String String
  pub binary_data : Dict String String

pub record TlsConfig : Type 0 where
  pub termination : String
  pub insecure_edge_termination_policy : String
  pub certificate : String
  pub key : String
  pub ca_certificate : String
  pub destination_ca_certificate : String

pub record RouteTarget : Type 0 where
  pub kind : String
  pub name : String

pub record RouteObjectSpec : Type 0 where
  pub host : String
  pub subdomain : String
  pub to : RouteTarget
  pub tls : Option TlsConfig

pub record RouteIngress : Type 0 where
  pub host : String
  pub conditions : List Condition

pub record Route : Type 0 where
  pub metadata : ObjectMeta
  pub spec : RouteObjectSpec
  pub ingress : List RouteIngress

-- `reflect.TypeOf(object).Elem().Name()`
pub data Kind : Type 0 where
  pod service secret config_map route : Kind

abbrev pub kind_name : Kind → String
kind_name Kind.pod = "Pod"
kind_name Kind.service = "Service"
kind_name Kind.secret = "Secret"
kind_name Kind.config_map = "ConfigMap"
kind_name Kind.route = "Route"

-- What a pointer of each kind points to.
abbrev pub Resource : Kind → Type 0
Resource Kind.pod = Pod
Resource Kind.service = Service
Resource Kind.secret = Secret
Resource Kind.config_map = ConfigMap
Resource Kind.route = Route

-- A value of `interface{}`, as `compareFunc` and `checkFunc` take it.
pub data Object : Type 0 where
  pod_object : Pod → Object
  service_object : Service → Object
  secret_object : Secret → Object
  config_map_object : ConfigMap → Object
  route_object : Route → Object

abbrev pub to_object : (k : Kind) → Resource k → Object
to_object Kind.pod = pod_object
to_object Kind.service = service_object
to_object Kind.secret = secret_object
to_object Kind.config_map = config_map_object
to_object Kind.route = route_object

abbrev pub meta : (k : Kind) → Resource k → ObjectMeta
meta Kind.pod o = o.metadata
meta Kind.service o = o.metadata
meta Kind.secret o = o.metadata
meta Kind.config_map o = o.metadata
meta Kind.route o = o.metadata

abbrev pub with_meta : (k : Kind) → Resource k → ObjectMeta → Resource k
with_meta Kind.pod o m = record o { metadata = m }
with_meta Kind.service o m = record o { metadata = m }
with_meta Kind.secret o m = record o { metadata = m }
with_meta Kind.config_map o m = record o { metadata = m }
with_meta Kind.route o m = record o { metadata = m }

-- `types.NamespacedName`
pub record NamespacedName : Type 0 where
  pub namespace : String
  pub name : String

abbrev pub key_of : ObjectMeta → NamespacedName
key_of m = record { namespace = m.namespace; name = m.name }
