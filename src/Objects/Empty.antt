-- ===== src/Objects/Empty.antt =====
-- The zero values from which Go's composite literals start.
use horreum_operator.Common.{String, none, []}
use horreum_operator.Common.Int.{ℤ, pos}
use horreum_operator.Objects.Records.{
  ObjectMeta, EnvVar, Container, PodSpec, PodStatus, ServicePort, Service, Secret, ConfigMap, Route,
  ServiceSpec, VolumeMount,
}

abbrev pub empty_meta : ObjectMeta
empty_meta = record {
  name = "";
  namespace = "";
  labels = [];
  annotations = [];
  owner_references = [];
}

abbrev pub empty_container : Container
empty_container = record {
  name = "";
  image = "";
  image_pull_policy = "";
  command = [];
  env = [];
  ports = [];
  volume_mounts = [];
  run_as_user = none;
}

abbrev pub empty_pod_spec : PodSpec
empty_pod_spec = record {
  termination_grace_period_seconds = none;
  init_containers = [];
  fs_group = none;
  containers = [];
  volumes = [];
}

abbrev pub empty_pod_status : PodStatus
empty_pod_status = record { container_statuses = []; conditions = [] }

abbrev pub empty_service_spec : ServiceSpec
empty_service_spec = record { type = ""; ports = []; selector = [] }

abbrev pub empty_service : Service
empty_service = record { metadata = empty_meta; spec = empty_service_spec; ingress = [] }

abbrev pub empty_secret : Secret
empty_secret = record { metadata = empty_meta; type = ""; data_map = []; string_data = [] }

abbrev pub empty_config_map : ConfigMap
empty_config_map = record { metadata = empty_meta; data_map = []; binary_data = [] }

abbrev pub empty_route : Route
empty_route = record {
  metadata = empty_meta;
  spec = record { host = ""; subdomain = ""; to = record { kind = ""; name = "" }; tls = none };
  ingress = [];
}

-- A variable with a value, and a mount with no sub-path.
abbrev pub env_var : String → String → EnvVar
env_var name value = record { name = name; value = value; value_from = none }

abbrev pub volume_mount : String → String → VolumeMount
volume_mount name path = record { name = name; mount_path = path; sub_path = "" }

abbrev pub port_entry : String → ℤ → ℤ → ServicePort
port_entry name port target = record {
  name = name;
  port = port;
  target_port = target;
  node_port = pos 0;
}
