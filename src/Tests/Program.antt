-- ===== src/Tests/Program.antt =====
-- A program whose calls succeed, on a cluster that lists the routes of OpenShift.
use horreum_operator.Common.{ℕ, suc, String, ◌≡◌, refl, ◌⊎◌, none, some, [], ◌∷◌}
use horreum_operator.Cluster.{found, ok, panic}
use horreum_operator.Manager.Main.{Runtime, parsed, run}
use horreum_operator.Manager.Main.Served.{IsRegistered, IsUnregistered, registered, IsEnd, run-ends}

-- The world counts the calls.
abbrev smooth : Runtime
smooth = record {
  World = ℕ;
  Error = String;
  Config = String;
  Client = String;
  Manager = String;
  add_to_scheme = λ group w. (none, suc w);
  parse_flags = λ flags w. (parsed flags, suc w);
  get_config_or_die = λ w. (some "kubeconfig", suc w);
  new_manager = λ config options w. (found options.metrics_bind_address, suc w);
  get_config = λ w. some "kubeconfig";
  new_discovery_client = λ config. some config;
  server_groups = λ client w. found ("apps" ∷ "route.openshift.io" ∷ []);
  complete = λ mgr r kinds w. (none, suc w);
  add_healthz_check = λ mgr name w. (none, suc w);
  add_readyz_check = λ mgr name w. (none, suc w);
  start = λ mgr w. (none, suc w);
}

run-smooth : (run smooth 0).0 ≡ ok tt
unfolding run
run-smooth = refl

run-ends_example :
    (IsUnregistered smooth 0 × ((run smooth 0).0 ≡ panic))
    ⊎ (IsRegistered smooth 0 × IsEnd smooth (registered smooth 0) (run smooth 0).0 (run smooth 0).1)
run-ends_example = run-ends smooth 0
