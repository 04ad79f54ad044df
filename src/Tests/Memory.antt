-- ===== src/Tests/Memory.antt =====
-- A cluster in memory: objects are kept in a list, nothing fails but a read of what is not there.
use horreum_operator.Common.{
  ℕ, suc, String, ◌≡◌, refl, sym, ap, Bool, true, false, ◌==◌, ◌&&◌, Option, none, some, List, [],
  ◌∷◌, ◌++◌, if◌then◌else◌, string_eq,
}
use horreum_operator.Common.Int.{pos}
use horreum_operator.Objects.{
  Kind, Resource, Object, pod_object, service_object, secret_object, config_map_object,
  route_object, to_object, meta, NamespacedName, key_of, empty_meta,
}
use horreum_operator.Crd.{Horreum, HorreumSpec, HorreumStatus, HorreumReconciler}
use horreum_operator.Cluster.{Api, State, Reply, found, failed}
use horreum_operator.Certs.{Crypto}
use horreum_operator.Status.Truthful.{IsQuiet}
use horreum_operator.Ensure.Truthful.{KeepsKeys}

pub data Fault : Type 0 where
  not_found : Fault
  message : String → Fault

pub record Memory : Type 0 where
  pub objects : List Object
  pub horreums : List Horreum
  pub statuses : List HorreumStatus
  pub clock : ℕ

abbrev pub pick : (k : Kind) → Object → Option (Resource k)
pick Kind.pod (pod_object o) = some o
pick Kind.pod _ = none
pick Kind.service (service_object o) = some o
pick Kind.service _ = none
pick Kind.secret (secret_object o) = some o
pick Kind.secret _ = none
pick Kind.config_map (config_map_object o) = some o
pick Kind.config_map _ = none
pick Kind.route (route_object o) = some o
pick Kind.route _ = none

abbrev pub same_key : NamespacedName → NamespacedName → Bool
same_key a b = a.namespace == b.namespace && a.name == b.name

-- Whether the object is the one of the kind and the key.
abbrev pub is_named : (k : Kind) → NamespacedName → Object → Bool
is_named k key o = elim (pick k o) [ some r ↦ same_key (key_of (meta k r)) key | none ↦ false ]

abbrev pub find : (k : Kind) → NamespacedName → List Object → Reply Fault (Resource k)
find k key [] = failed not_found
find k key (o ∷ os) =
    let rest = find k key os in
    elim (pick k o) [
      | some r ↦ if same_key (key_of (meta k r)) key then found r else rest
      | none ↦ rest
    ]

abbrev pub remove : (k : Kind) → NamespacedName → List Object → List Object
remove k key [] = []
remove k key (o ∷ os) = let rest = remove k key os in if is_named k key o then rest else o ∷ rest

-- The server moves the string data of a secret into its data.
abbrev pub stored : Object → Object
stored (secret_object s) = secret_object (record s { data_map = s.data_map ++ s.string_data })
stored o = o

abbrev pub find_horreum : NamespacedName → List Horreum → Reply Fault Horreum
find_horreum key [] = failed not_found
find_horreum key (cr ∷ crs) =
    let rest = find_horreum key crs in if same_key (key_of cr.metadata) key then found cr else rest

abbrev pub memory_api : Api
memory_api = record {
  World = Memory;
  Error = Fault;
  is_not_found = λ e. elim e [ not_found ↦ true | message _ ↦ false ];
  new_error = message;
  get_horreum = λ key w. (find_horreum key w.horreums, w);
  get = λ k key w. (find k key w.objects, w);
  create = λ k o w. (none, record w { objects = stored (to_object k o) ∷ w.objects });
  delete = λ k o w. (none, record w { objects = remove k (key_of (meta k o)) w.objects });
  update_status = λ cr w. record w { statuses = cr.status ∷ w.statuses };
  set_controller_reference = λ cr m.
      found (record m {
        owner_references = record { name = cr.metadata.name; controller = true } ∷ [];
      });
  deep_derivative = λ _ _. true;
  now = λ w. (w.clock, record w { clock = suc w.clock });
  seed = λ w. w;
  rand_intn = λ n w. (0, w);
  parse_request_uri = λ url. if url == "" then none else some url;
}

pub memory_api-IsQuiet : IsQuiet memory_api
memory_api-IsQuiet = record {
  get_quiet = λ k key w. refl;
  now_quiet = λ w. refl;
  seed_quiet = λ w. refl;
  rand_quiet = λ n w. refl;
  update_quiet = λ cr w. refl;
}

pub memory_api-KeepsKeys : KeepsKeys memory_api
memory_api-KeepsKeys cr m m' e = sym (ap key_of (owned e))
  where
    owned :
        memory_api.set_controller_reference cr m ≡ found m'
        → record m { owner_references = record { name = cr.metadata.name; controller = true } ∷ [] }
          ≡ m'
    owned e = cc

-- Keys are numbers, and a text stands for itself under every encoding.
abbrev pub crypto_of : (api : Api) → Crypto api
crypto_of api = record {
  PrivateKey = String;
  generate_key = λ bits w. (found "key", w);
  create_certificate = λ template parent key signer w. (found template.subject.common_name, w);
  parse_certificate = λ bytes. failed (api.new_error bytes);
  marshal_private_key = λ key. key;
  parse_private_key = λ bytes. found bytes;
  pem_encode = λ kind bytes. bytes;
  pem_decode = λ text. if text == "" then none else some text;
  add_years = λ t years. t;
}

abbrev pub memory_crypto : Crypto memory_api
memory_crypto = crypto_of memory_api

abbrev pub empty_spec : HorreumSpec
empty_spec = record {
  admin_secret = "";
  route = record { host = ""; type = ""; tls = "" };
  service_type = "";
  image = "";
  database = record { host = ""; port = pos 0; name = ""; secret = "" };
  keycloak = record {
    external = record { public_uri = ""; internal_uri = "" };
    image = "";
    route = record { host = ""; type = ""; tls = "" };
    service_type = "";
    admin_secret = "";
    database = record { host = ""; port = pos 0; name = ""; secret = "" };
  };
  postgres = record {
    enabled = none;
    image = "";
    admin_secret = "";
    persistent_volume_claim = "";
    user = none;
  };
  node_host = "";
}

abbrev pub empty_status : HorreumStatus
empty_status = record {
  status = "";
  last_update = 0;
  reason = "";
  public_url = "";
  keycloak_url = "";
}

abbrev pub sample : Horreum
sample = record {
  metadata = record empty_meta { name = "horreum"; namespace = "perf" };
  spec = empty_spec;
  status = empty_status;
}

abbrev pub openshift : HorreumReconciler
openshift = record { routes_available = true; use_red_hat_images = true }

abbrev pub kubernetes : HorreumReconciler
kubernetes = record { routes_available = false; use_red_hat_images = false }

abbrev pub start : List Object → State memory_api
start objects = record {
  world = record { objects = objects; horreums = sample ∷ []; statuses = []; clock = 0 };
  status = empty_status;
}
