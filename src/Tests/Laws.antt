-- ===== src/Tests/Laws.antt =====
-- The laws of the cluster in memory.
use horreum_operator.Common.{
  ◌≡◌, refl, sym, ap, ◌∙◌, ◌≢◌, ◌⊎◌, inl, inr, Bool-cases, none, some, List, [], ◌∷◌, ◌++◌, arith,
  eq_iff, string_eq, true, false, if◌then◌else◌,
}
use horreum_operator.Objects.{
  Kind, Resource, Object, pod_object, service_object, secret_object, config_map_object,
  route_object, to_object, meta, NamespacedName, key_of,
}
use horreum_operator.Cluster.{failed, Reply, found}
use horreum_operator.Crd.{Horreum}
use horreum_operator.Ensure.Leaves.{Server, IsStore}
use horreum_operator.Status.Keyed.{IsKeyed, IsElsewhere, IsAnswering}
use horreum_operator.Tests.Memory.{
  Fault, not_found, find_horreum, pick, same_key, is_named, find, remove, stored, memory_api,
}

abbrev object_key : Object → NamespacedName
object_key (pod_object o) = key_of o.metadata
object_key (service_object o) = key_of o.metadata
object_key (secret_object o) = key_of o.metadata
object_key (config_map_object o) = key_of o.metadata
object_key (route_object o) = key_of o.metadata

abbrev object_kind : Object → Kind
object_kind (pod_object o) = Kind.pod
object_kind (service_object o) = Kind.service
object_kind (secret_object o) = Kind.secret
object_kind (config_map_object o) = Kind.config_map
object_kind (route_object o) = Kind.route

stored-object_kind :
    (k : Kind) (object : Resource k) → object_kind (stored (to_object k object)) ≡ k
stored-object_kind Kind.pod object = refl
stored-object_kind Kind.service object = refl
stored-object_kind Kind.secret object = refl
stored-object_kind Kind.config_map object = refl
stored-object_kind Kind.route object = refl

stored-object_key :
    (k : Kind) (object : Resource k)
    → object_key (stored (to_object k object)) ≡ key_of (meta k object)
stored-object_key Kind.pod object = refl
stored-object_key Kind.service object = refl
stored-object_key Kind.secret object = refl
stored-object_key Kind.config_map object = refl
stored-object_key Kind.route object = refl

-- An object is of the kind or not, and keeps its key.
pick-cases :
    (k : Kind) (o : Object)
    → (pick k o ≡ none)
      ⊎ ((r : Resource k) × (pick k o ≡ some r)
          × (key_of (meta k r) ≡ object_key o)
          × (k ≡ object_kind o))
pick-cases Kind.pod (pod_object o) = inr (o, refl, refl, refl)
pick-cases Kind.pod (service_object o) = inl refl
pick-cases Kind.pod (secret_object o) = inl refl
pick-cases Kind.pod (config_map_object o) = inl refl
pick-cases Kind.pod (route_object o) = inl refl
pick-cases Kind.service (pod_object o) = inl refl
pick-cases Kind.service (service_object o) = inr (o, refl, refl, refl)
pick-cases Kind.service (secret_object o) = inl refl
pick-cases Kind.service (config_map_object o) = inl refl
pick-cases Kind.service (route_object o) = inl refl
pick-cases Kind.secret (pod_object o) = inl refl
pick-cases Kind.secret (service_object o) = inl refl
pick-cases Kind.secret (secret_object o) = inr (o, refl, refl, refl)
pick-cases Kind.secret (config_map_object o) = inl refl
pick-cases Kind.secret (route_object o) = inl refl
pick-cases Kind.config_map (pod_object o) = inl refl
pick-cases Kind.config_map (service_object o) = inl refl
pick-cases Kind.config_map (secret_object o) = inl refl
pick-cases Kind.config_map (config_map_object o) = inr (o, refl, refl, refl)
pick-cases Kind.config_map (route_object o) = inl refl
pick-cases Kind.route (pod_object o) = inl refl
pick-cases Kind.route (service_object o) = inl refl
pick-cases Kind.route (secret_object o) = inl refl
pick-cases Kind.route (config_map_object o) = inl refl
pick-cases Kind.route (route_object o) = inr (o, refl, refl, refl)

same_key-eq : (a b : NamespacedName) → same_key a b ≡ true → a ≡ b
same_key-eq a b e =
    let namespaces : a.namespace ≡ b.namespace =
      ground (arith, e, eq_iff a.namespace b.namespace) in
    let names : a.name ≡ b.name = ground (arith, e, eq_iff a.name b.name) in
    rw (namespaces, names) refl

other-same_key : (a b : NamespacedName) → b ≢ a → same_key a b ≡ false
other-same_key a b h = elim (Bool-cases (same_key a b)) [
  | inl e ↦ absurd (h (sym (same_key-eq a b e)))
  | inr e ↦ e
]

find-other :
    (k : Kind) (key : NamespacedName) (o : Object) (os : List Object)
    → IsElsewhere (object_kind o) (object_key o) k key
    → find k key (o ∷ os) ≡ find k key os
find-other k key o os h = elim (pick-cases k o) [
  | inl e ↦ rw (e, find) refl
  | inr (r, e, same, kind) ↦ elim h [
    | inl other ↦ absurd (other kind)
    | inr other ↦ rw (find, e, other-same_key (key_of (meta k r)) key (λ x. other (x ∙ same))) refl
  ]
]

is_named-object :
    (k : Kind) (key : NamespacedName) (o : Object)
    → is_named k key o ≡ true
    → (object_kind o ≡ k) × (object_key o ≡ key)
is_named-object k key o h = elim (pick-cases k o) [
  | inl e ↦ cc (rw (e, is_named) at h)
  | inr (r, e, same, kind) ↦
      (sym kind, sym same ∙ same_key-eq (key_of (meta k r)) key (rw (e, is_named) at h))
]

find-behind :
    (k : Kind) (key : NamespacedName) (o : Object) (xs ys : List Object)
    → find k key xs ≡ find k key ys
    → find k key (o ∷ xs) ≡ find k key (o ∷ ys)
find-behind k key o xs ys h =
    ap
      (λ (rest : Reply Fault (Resource k)). elim (pick k o) [
        | some r ↦ if same_key (key_of (meta k r)) key then found r else rest
        | none ↦ rest
      ])
      h

find-remove :
    (j k : Kind) (key key' : NamespacedName) (os : List Object)
    → IsElsewhere k key' j key
    → find j key (remove k key' os) ≡ find j key os
find-remove j k key key' [] h = refl
find-remove j k key key' (o ∷ os) h = elim (Bool-cases (is_named k key' o)) [
  | inl e ↦ rw e (
      find-remove j k key key' os h
      ∙ sym (
          find-other j key o os
            (let (kind, named) = is_named-object k key' o e in rw (kind, named) h)))
  | inr e ↦ rw e (find-behind j key o (remove k key' os) os (find-remove j k key key' os h))
]

find-key :
    (k : Kind) (key : NamespacedName) (os : List Object) (object : Resource k)
    → find k key os ≡ found object
    → key_of (meta k object) ≡ key
find-key k key [] object h = cc
find-key k key (o ∷ os) object h = elim (pick-cases k o) [
  | inl e ↦ find-key k key os object (rw (e, find) at h)
  | inr (r, e, same, kind) ↦ elim (Bool-cases (same_key (key_of (meta k r)) key)) [
    | inl named ↦
        let it : r ≡ object = cc (rw (e, find, named) at h) in
        ap (λ (x : Resource k). key_of (meta k x)) (sym it)
        ∙ same_key-eq (key_of (meta k r)) key named
    | inr other ↦ find-key k key os object (rw (e, find, other) at h)
  ]
]

pub memory_api-IsKeyed : IsKeyed memory_api
memory_api-IsKeyed = record {
  answered = λ k key w object. find-key k key w.objects object;
  create_elsewhere = λ k object w j key other.
      find-other j key (stored (to_object k object)) w.objects
        (rw (stored-object_kind k object, stored-object_key k object) other);
  delete_elsewhere = λ k object w j key. find-remove j k key (key_of (meta k object)) w.objects;
}

-- The server moves the string data of a secret into its data.
abbrev pub kept : Server
kept Kind.pod object = object
kept Kind.service object = object
kept Kind.secret object = record object { data_map = object.data_map ++ object.string_data }
kept Kind.config_map object = object
kept Kind.route object = object

same_key_refl : (key : NamespacedName) → same_key key key ≡ true
same_key_refl key = ground (arith, eq_iff key.namespace key.namespace, eq_iff key.name key.name)

find-stored :
    (k : Kind) (object : Resource k) (os : List Object)
    → find k (key_of (meta k object)) (stored (to_object k object) ∷ os) ≡ found (kept k object)
find-stored Kind.pod object os = rw (same_key_refl (key_of object.metadata)) refl
find-stored Kind.service object os = rw (same_key_refl (key_of object.metadata)) refl
find-stored Kind.secret object os = rw (same_key_refl (key_of object.metadata)) refl
find-stored Kind.config_map object os = rw (same_key_refl (key_of object.metadata)) refl
find-stored Kind.route object os = rw (same_key_refl (key_of object.metadata)) refl

find-removed :
    (k : Kind) (key : NamespacedName) (os : List Object)
    → find k key (remove k key os) ≡ failed not_found
find-removed k key [] = refl
find-removed k key (o ∷ os) = elim (Bool-cases (is_named k key o)) [
  | inl e ↦ rw e (find-removed k key os)
  | inr e ↦ rw e (find-unnamed k key o (remove k key os) e ∙ find-removed k key os)
]
  where
    find-unnamed :
        (k : Kind) (key : NamespacedName) (o : Object) (os : List Object)
        → is_named k key o ≡ false
        → find k key (o ∷ os) ≡ find k key os
    find-unnamed k key o os h = elim (pick-cases k o) [
      | inl e ↦ rw (e, find) refl
      | inr (r, e, same, kind) ↦ rw (find, e, rw (e, is_named) at h) refl
    ]

pub memory_api-IsStore : IsStore memory_api kept
memory_api-IsStore = record {
  created = λ k object w _. find-stored k object w.objects;
  deleted = λ k object w _. (not_found, find-removed k (key_of (meta k object)) w.objects, refl);
}

find_horreum-key :
    (request : NamespacedName) (crs : List Horreum) (cr : Horreum)
    → find_horreum request crs ≡ found cr
    → key_of cr.metadata ≡ request
find_horreum-key request [] cr h = cc
find_horreum-key request (x ∷ crs) cr h = elim (Bool-cases (same_key (key_of x.metadata) request)) [
  | inl named ↦
      let it : x ≡ cr = cc (rw (named, find_horreum) at h) in
      ap (λ (y : Horreum). key_of y.metadata) (sym it)
      ∙ same_key-eq (key_of x.metadata) request named
  | inr other ↦ find_horreum-key request crs cr (rw (other, find_horreum) at h)
]

pub memory_api-IsAnswering : IsAnswering memory_api
memory_api-IsAnswering = record {
  horreum_quiet = λ request w. refl;
  horreum_answered = λ request w cr there.
      ap (λ (key : NamespacedName). key.namespace) (find_horreum-key request w.horreums cr there);
}
