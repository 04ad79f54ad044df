-- ===== src/Manager/Main.antt =====
-- `init` and `main` of main.go, and `SetupWithManager` of controllers/horreum_controller.go.
pub mod Course
pub mod Ends
pub mod Served
use horreum_operator.Common.{ℕ, String, Bool, true, false, Option, none, some, List, [], ◌∷◌}
use horreum_operator.Objects.{Kind}
use horreum_operator.Crd.{HorreumReconciler}
use horreum_operator.Cluster.{Action, Reply, found, failed, ok, pure, raise, crash, ◌>>=◌, ◌>>◌}
use horreum_operator.Manager.{detect_routes, new_reconciler, owned_kinds}

-- The groups of types that are added to the scheme.
pub data SchemeGroup : Type 0 where
  client_go hyperfoil openshift_route : SchemeGroup

-- The flags of the program.
pub record Flags : Type 0 where
  pub metrics_addr : String
  pub probe_addr : String
  pub enable_leader_election : Bool

-- `ctrl.Options`, without the scheme
pub record ManagerOptions : Type 0 where
  pub metrics_bind_address : String
  pub port : ℕ
  pub health_probe_bind_address : String
  pub leader_election : Bool
  pub leader_election_id : String

-- What `flag.Parse` makes of the arguments with `flag.ExitOnError`: the flags, or the end of the process,
-- with the status 0 where the help is asked for and with the status 2 where an argument is not valid.
pub data Parsed : Type 0 where
  parsed : Flags → Parsed
  asked_for_help invalid : Parsed

-- What the program takes from the packages flag, controller-runtime and client-go. Every call but
-- those of the discovery leaves a world of its own.
pub record Runtime : Type 1 where
  pub World : Type 0
  pub Error : Type 0
  pub Config : Type 0
  pub Client : Type 0
  pub Manager : Type 0
  -- `AddToScheme`, with the error if there is one
  pub add_to_scheme : SchemeGroup → World → Option Error × World
  -- `flag.Parse`, with the values of the flags that are absent
  pub parse_flags : Flags → World → Parsed × World
  -- `ctrl.GetConfigOrDie`, with `none` if the process is ended with the status 1
  pub get_config_or_die : World → Option Config × World
  -- `ctrl.NewManager`
  pub new_manager : Config → ManagerOptions → World → Reply Error Manager × World
  -- `ctrl.GetConfig`, `discovery.NewDiscoveryClientForConfig`, both without their errors, and the names
  -- of `ServerGroups`
  pub get_config : World → Option Config
  pub new_discovery_client : Config → Option Client
  pub server_groups : Client → World → Reply Error (List String)
  -- `Complete` of a controller for `Horreum` that owns the kinds
  pub complete : Manager → HorreumReconciler → List Kind → World → Option Error × World
  pub add_healthz_check : Manager → String → World → Option Error × World
  pub add_readyz_check : Manager → String → World → Option Error × World
  -- `mgr.Start`, which returns when the process is told to stop
  pub start : Manager → World → Option Error × World

abbrev pub default_flags : Flags
default_flags = record {
  metrics_addr = ":8080";
  probe_addr = ":8081";
  enable_leader_election = false;
}

unfoldable pub manager_options : Flags → ManagerOptions
manager_options flags = record {
  metrics_bind_address = flags.metrics_addr;
  port = 9443;
  health_probe_bind_address = flags.probe_addr;
  leader_election = flags.enable_leader_election;
  leader_election_id = "ac631cda.hyperfoil.io";
}

module _ (R : Runtime) where
  -- The error of a program is its exit status.
  abbrev pub Program : Type 0 → Type 0
  Program A = Action R.World ℕ A

  -- `utilruntime.Must`
  unfoldable pub must : (R.World → Option R.Error × R.World) → Program (Unit {0})
  must f w = elim (f w).0 [ none ↦ pure tt (f w).1 | some _ ↦ crash (f w).1 ]

  unfoldable pub init : Program (Unit {0})
  unfolding must
  init = do
    must (R.add_to_scheme client_go)
    must (R.add_to_scheme hyperfoil)
    must (R.add_to_scheme openshift_route)

  -- `if err := …; err != nil { …; os.Exit(1) }`
  unfoldable pub exit_on_error : (R.World → Option R.Error × R.World) → Program (Unit {0})
  exit_on_error f w = elim (f w).0 [ none ↦ pure tt (f w).1 | some _ ↦ raise 1 (f w).1 ]

  -- `flag.Parse` on the flags that are declared
  unfoldable pub parse : Program Flags
  parse w =
      let (answer, w1) = R.parse_flags default_flags w in
      elim answer [
        | parsed flags ↦ pure flags w1
        | asked_for_help ↦ raise 0 w1
        | invalid ↦ raise 2 w1
      ]

  -- `ctrl.GetConfigOrDie`
  unfoldable pub get_config_or_die : Program R.Config
  get_config_or_die w =
      let (answer, w1) = R.get_config_or_die w in
      elim answer [ some config ↦ pure config w1 | none ↦ raise 1 w1 ]

  unfoldable pub make_manager : R.Config → Flags → Program R.Manager
  unfolding manager_options
  make_manager config flags w =
      let made = R.new_manager config (manager_options flags) w in
      elim made.0 [ found mgr ↦ pure mgr made.1 | failed _ ↦ raise 1 made.1 ]

  -- The detection of OpenShift, which changes nothing.
  unfoldable pub discover : Program Bool
  unfolding detect_routes
  discover w =
      pure
        (detect_routes (R.get_config w) R.new_discovery_client (λ client. R.server_groups client w))
        w

  unfoldable pub setup_with_manager :
      HorreumReconciler → R.Manager → R.World → Option R.Error × R.World
  unfolding owned_kinds
  setup_with_manager r mgr = R.complete mgr r (owned_kinds r)

  -- What follows the detection.
  unfoldable pub serve : R.Manager → Bool → Program (Unit {0})
  unfolding exit_on_error setup_with_manager new_reconciler
  serve mgr routes_available = do
    exit_on_error (setup_with_manager (new_reconciler routes_available) mgr)
    exit_on_error (R.add_healthz_check mgr "healthz")
    exit_on_error (R.add_readyz_check mgr "readyz")
    exit_on_error (R.start mgr)

  unfoldable pub main : Program (Unit {0})
  unfolding parse get_config_or_die make_manager discover serve
  main = do
    flags ← parse
    config ← get_config_or_die
    mgr ← make_manager config flags
    routes_available ← discover
    serve mgr routes_available

  -- The package is initialised before `main` runs.
  unfoldable pub run : Program (Unit {0})
  unfolding init main
  run = init >> main
