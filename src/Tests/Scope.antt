-- ===== src/Tests/Scope.antt =====
-- Reconciliations seen from outside.
use horreum_operator.Common.{◌≡◌, refl, List, [], ◌∷◌, arith, eq_iff, string_eq}
use horreum_operator.Objects.{
  key_of, empty_secret, empty_meta, Kind, Object, secret_object, NamespacedName,
}
use horreum_operator.Cluster.{M, State, Outcome, ◌>>◌}
use horreum_operator.Parts.Postgres.{
  postgres_config_map, postgres_pod, postgres_service, init_keycloak_script, init_app_script,
}
use horreum_operator.Defaults.{
  db_admin_secret, app_user_secret, keycloak_admin_secret, keycloak_db_secret, horreum_admin_secret,
  db_image, with_default,
}
use horreum_operator.Status.{publish, next_status, set_status, keeps_error}
use horreum_operator.Ensure.{ensure_same}
use horreum_operator.Secrets.{new_secret, fill}
use horreum_operator.Checks.{
  nocompare, compare_pods, compare_service, compare_config_map, nocheck, check_secret, check_pod,
}
use horreum_operator.Status.Truthful.{observe}
use horreum_operator.Reconcile.{
  reconcile, start_status, certificates, secrets, postgres, postgres_disabled, reconcile_valid,
}
use horreum_operator.Scope.{Steps}
use horreum_operator.Scope.Request.{reconcile-outside}
use horreum_operator.Scope.Frame.{
  IsKnown, reconcile_valid-keeps_error, IsOffline, reconcile_valid-Steps, reconcile_valid-IsKnown,
}
use horreum_operator.Tests.Memory.{
  Fault, memory_api, memory_crypto, memory_api-KeepsKeys, memory_api-IsQuiet, sample, openshift,
  start,
}
use horreum_operator.Tests.Laws.{memory_api-IsKeyed, memory_api-IsAnswering}

abbrev objects : List Object
objects =
    secret_object (record empty_secret {
      metadata = record empty_meta { name = "horreum-app"; namespace = "other" };
      data_map = ("username", "u") ∷ [];
    })
    ∷ secret_object (record empty_secret {
      metadata = record empty_meta { name = "horreum-app"; namespace = "perf" };
      data_map = ("username", "u") ∷ [];
    })
    ∷ []

memory_crypto-IsOffline : IsOffline memory_api memory_crypto
memory_crypto-IsOffline = record {
  keyed_quiet = λ bits w. refl;
  signed_quiet = λ template parent key signer w. refl;
}

reconcile_valid-Steps_example :
    Steps memory_api memory_crypto sample
      (start_status memory_api sample (start objects)).1
      (reconcile_valid memory_api memory_crypto openshift sample (start objects)).1
reconcile_valid-Steps_example =
    reconcile_valid-Steps memory_api memory_crypto openshift sample memory_api-KeepsKeys
      (start objects)

-- An object of another namespace, under the name of one that the operator makes.
abbrev foreign_key : NamespacedName
foreign_key = record { namespace = "other"; name = "horreum-app" }

reconcile_valid-IsKnown_example :
    IsKnown
      (reconcile_valid memory_api memory_crypto openshift sample (start objects)).1.status.status
reconcile_valid-IsKnown_example =
    reconcile_valid-IsKnown memory_api memory_crypto openshift sample memory_api-KeepsKeys
      (start objects)

-- The reconciliation up to the database: a secret lacks its password.
abbrev first_phases : M memory_api (Unit {0})
first_phases = do
  start_status memory_api sample
  certificates memory_api memory_crypto openshift sample
  secrets memory_api sample
  postgres memory_api openshift sample

first_outcome : Outcome Fault (Unit {0}) × State memory_api
unfolding start_status certificates secrets postgres postgres_disabled ensure_same new_secret fill
    publish db_admin_secret app_user_secret keycloak_admin_secret keycloak_db_secret
    horreum_admin_secret nocompare compare_pods compare_service compare_config_map nocheck
    check_secret check_pod postgres_config_map postgres_pod postgres_service init_keycloak_script
    init_app_script db_image with_default next_status set_status keeps_error
first_outcome = first_phases (start objects)

reconcile_valid-keeps_error_example :
    (reconcile_valid memory_api memory_crypto openshift sample (start objects)).1.status.status
    ≡ "Error"
unfolding first_outcome
reconcile_valid-keeps_error_example =
    reconcile_valid-keeps_error memory_api memory_crypto openshift sample memory_api-KeepsKeys
      (start objects) first_outcome.1 refl refl

reconcile-outside_example :
    observe memory_api
      (reconcile memory_api memory_crypto openshift
        (key_of sample.metadata)
        (start objects)).1.world
      Kind.secret
      foreign_key
    ≡ observe memory_api (start objects).world Kind.secret foreign_key
reconcile-outside_example =
    reconcile-outside memory_api memory_crypto openshift memory_api-KeepsKeys memory_api-IsQuiet
      memory_api-IsKeyed memory_crypto-IsOffline memory_api-IsAnswering (key_of sample.metadata)
      (start objects) Kind.secret foreign_key (λ e. ground (arith, e, eq_iff "other" "perf"))
