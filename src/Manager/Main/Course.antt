-- ===== src/Manager/Main/Course.antt =====
-- The courses that `main` can take after its flags: each call in order, or the first that fails.
use horreum_operator.Common.{
  ◌≡◌, ◌↔◌, ◌⊎◌, Bool, true, Option, none, some, [], ◌∷◌, contains, if◌then◌else◌, string_eq,
  String, List,
}
use horreum_operator.Objects.{Kind}
use horreum_operator.Cluster.{found, failed}
use horreum_operator.Manager.Main.{Flags, Runtime, ManagerOptions}

module _ (R : Runtime) where
  -- The server has the group of OpenShift's routes, and the program can see it.
  abbrev pub IsOpenshift : R.World → Type 0
  IsOpenshift w =
      (config : R.Config) × (client : R.Client) × (names : List String) × (R.get_config w
        ≡ some config)
      × (R.new_discovery_client config ≡ some client)
      × (R.server_groups client w ≡ found names)
      × (contains "route.openshift.io" names ≡ true)

  -- `Complete` of the controller for the kind of cluster
  abbrev pub complete : R.Manager → Bool → R.World → Option R.Error × R.World
  complete mgr routes =
      R.complete mgr (record { routes_available = routes; use_red_hat_images = routes })
        (if routes
          then Kind.pod ∷ Kind.service ∷ Kind.secret ∷ Kind.config_map ∷ Kind.route ∷ []
          else Kind.pod ∷ Kind.service ∷ Kind.secret ∷ Kind.config_map ∷ [])

  abbrev pub options_of : Flags → ManagerOptions
  options_of flags = record {
    metrics_bind_address = flags.metrics_addr;
    port = 9443;
    health_probe_bind_address = flags.probe_addr;
    leader_election = flags.enable_leader_election;
    leader_election_id = "ac631cda.hyperfoil.io";
  }

  -- From a world with the manager to the end: the controller is set up for the kind of cluster, both
  -- checks are added, and the manager is started and ends, each without an error and in this order.
  pub record IsServed (mgr : R.Manager) (routes : Bool) (w w' : R.World) : Type 0 where
    pub with_controller : R.World
    pub with_live : R.World
    pub with_ready : R.World
    pub controller : complete mgr routes w ≡ (none, with_controller)
    pub live : R.add_healthz_check mgr "healthz" with_controller ≡ (none, with_live)
    pub ready : R.add_readyz_check mgr "readyz" with_live ≡ (none, with_ready)
    pub started : R.start mgr with_ready ≡ (none, w')

  -- The configuration is read, a manager is made with it and the flags, and it serves the kind of
  -- cluster that is there at that moment.
  abbrev pub IsRun : Flags → R.World → R.World → Type 0
  IsRun flags w0 w' =
      (config : R.Config) × (mgr : R.Manager) × (routes : Bool) × (w1 w2 : R.World)
      × (R.get_config_or_die w0 ≡ (some config, w1))
      × (R.new_manager config (options_of flags) w1 ≡ (found mgr, w2))
      × ((routes ≡ true) ↔ IsOpenshift w2)
      × IsServed mgr routes w2 w'

  abbrev pub IsFailing : (R.World → Option R.Error × R.World) → R.World → Type 0
  IsFailing f w = (e : R.Error) × ((f w).0 ≡ some e)

  -- The call fails, or succeeds and leaves a world with `G`.
  abbrev pub FailsOr : (R.World → Option R.Error × R.World) → (R.World → Type 0) → R.World → Type 0
  FailsOr f G w = IsFailing f w ⊎ ((w1 : R.World) × (f w ≡ (none, w1)) × G w1)

  -- The first of the calls that fails, after those before it succeeded.
  abbrev pub IsUnserved : R.Manager → Bool → R.World → Type 0
  IsUnserved mgr routes = FailsOr (complete mgr routes) (
      FailsOr (R.add_healthz_check mgr "healthz")
        (FailsOr (R.add_readyz_check mgr "readyz") (IsFailing (R.start mgr))))

  abbrev pub IsUnmanaged : Flags → R.Config → R.World → Type 0
  IsUnmanaged flags config w1 =
      ((e : R.Error) × ((R.new_manager config (options_of flags) w1).0 ≡ failed e))
      ⊎ ((mgr : R.Manager) × (w2 : R.World) × (R.new_manager config (options_of flags) w1
            ≡ (found mgr, w2))
          × ((routes : Bool) × ((routes ≡ true) ↔ IsOpenshift w2) × IsUnserved mgr routes w2))

  -- There is no configuration, or no manager can be made with it, or this manager cannot be set up,
  -- or its run ends by an error.
  abbrev pub IsFailed : Flags → R.World → Type 0
  IsFailed flags w0 =
      ((R.get_config_or_die w0).0 ≡ none)
      ⊎ ((config : R.Config) × (w1 : R.World) × (R.get_config_or_die w0 ≡ (some config, w1))
          × IsUnmanaged flags config w1)
