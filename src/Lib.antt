-- ===== src/Lib.antt =====
-- The Horreum operator: the controller that deploys Horreum, Keycloak and PostgreSQL for a custom
-- resource of the kind Horreum.
--
-- Parts, and how they interact. Crd has the custom resource of api/v1alpha1/horreum_types.go and the
-- reconciler's settings. Objects has the Kubernetes objects as far as the operator reads or writes
-- them, with a datatype of their five kinds. Defaults is controllers/defaults.go. Parts has the
-- builders of the pods, services and config maps: Parts.App for controllers/app.go, Parts.Keycloak for
-- controllers/keycloak.go, Parts.Postgres for controllers/postgres.go, Parts.Service for the helpers
-- secretEnv, servicePort, serviceType and isNodePort, and Parts.Upload for uploadConfig. Secrets has
-- newSecret and generatePassword, and Routes has tls and route, of controllers/utils.go, with the two
-- callers keycloakRoute and appRoute. Certs is controllers/certificates.go. The rest is
-- controllers/horreum_controller.go: Status for setStatus and updateStatus, Ensure for ensureSame and
-- ensureDeleted, Checks for the functions that they take as arguments, Urls for the URLs of services
-- and routes, and Reconcile for the method Reconcile, in phases that follow its body from top to
-- bottom. Manager is main.go: the detection of OpenShift and the kinds that SetupWithManager watches, and
-- in Manager.Main the functions init and main with their exit statuses, over the calls of the packages
-- flag, controller-runtime and client-go. Tests runs the definitions on a cluster in memory.
--
-- Three families of modules are about a whole reconciliation. Scope has the step relation of all that a
-- reconciliation may do to the cluster and to the status, with one rule for each way to build an action.
-- Steady has the actions that leave a cluster alone that is as it should be. Ensure.Leaves, with
-- Ensure.Placed, Ensure.Settles and Ensure.Gone, compares ensureSame and ensureDeleted with a store of
-- objects. Certs.Authority compares the authority of one reconciliation with that of a later one.
--
-- State. A reconciliation is an action on a pair of the world and the status of the custom resource;
-- the status is the only part of the custom resource that it writes. An action ends by a value, an
-- error or a panic, and the state comes back in each case. All that is not code of the repository is
-- an argument: Cluster.Api has the calls of the Kubernetes client, the clock, the random numbers,
-- SetControllerReference, DeepDerivative and ParseRequestURI, and Certs.Crypto has the calls of
-- crypto/rsa, crypto/x509 and encoding/pem. Every call takes a world and leaves another one, so that
-- other actors may change the cluster between two calls; where a theorem needs that they do not, it
-- says so by the hypothesis IsQuiet. KeepsKeys says that an owner reference does not rename an object,
-- CanOwn that it can be set, IsKeyed that the server answers by kind and key and that a call changes no
-- other object, IsStore that Create and Delete take effect at once, IsOffline that keys and
-- certificates are made without the cluster, KeepsData that the server keeps the data of a secret, and
-- IsReadable and IsSigning that keys, PEM blocks and signed certificates can be read back.
--
-- Choices. A pointer is an option, a map is a list of entries with distinct keys, a byte slice is a
-- text, a Go string constant of a library is a text by the library's documentation. Integers are
-- compared and printed and never calculated with, so they do not overflow. Decimal printing recurses
-- on the number plus one, which is more than its digits. A loop is a recursion over the list it runs
-- through, with its early return as the value. Requeue is a result of its own.
--
-- Not modelled: what is logged; what the API server writes back into an object on Create and on a
-- status update, since nothing reads it afterwards; the set-up of the logger in main.go;
-- api/v1alpha1/groupversion_info.go, which names the group of the custom resource for the scheme, and the
-- type HorreumList, which nothing reads; the manifests under config.
pub mod Common
pub mod Objects
pub mod Crd
pub mod Defaults
pub mod Parts
pub mod Cluster
pub mod Status
pub mod Ensure
pub mod Checks
pub mod Secrets
pub mod Routes
pub mod Urls
pub mod Certs
pub mod Reconcile
pub mod Scope
pub mod Steady
pub mod Manager
mod Tests
