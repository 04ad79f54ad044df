-- ===== src/Objects/Names.antt =====
-- The string constants of the Kubernetes and OpenShift APIs that controllers/*.go names.
use horreum_operator.Common.{String}

abbrev pub basic_auth_username_key : String
basic_auth_username_key = "username"

abbrev pub basic_auth_password_key : String
basic_auth_password_key = "password"

abbrev pub tls_cert_key : String
tls_cert_key = "tls.crt"

abbrev pub tls_private_key_key : String
tls_private_key_key = "tls.key"

abbrev pub secret_type_basic_auth : String
secret_type_basic_auth = "kubernetes.io/basic-auth"

abbrev pub secret_type_tls : String
secret_type_tls = "kubernetes.io/tls"

abbrev pub service_type_node_port : String
service_type_node_port = "NodePort"

abbrev pub service_type_load_balancer : String
service_type_load_balancer = "LoadBalancer"

abbrev pub service_type_cluster_ip : String
service_type_cluster_ip = "ClusterIP"

abbrev pub pull_always : String
pull_always = "Always"

abbrev pub pod_ready : String
pod_ready = "Ready"

abbrev pub condition_true : String
condition_true = "True"

abbrev pub route_admitted : String
route_admitted = "Admitted"

abbrev pub tls_termination_edge : String
tls_termination_edge = "edge"

abbrev pub tls_termination_passthrough : String
tls_termination_passthrough = "passthrough"

abbrev pub tls_termination_reencrypt : String
tls_termination_reencrypt = "reencrypt"

abbrev pub insecure_policy_redirect : String
insecure_policy_redirect = "Redirect"
