-- ===== src/Manager/Main/Served.antt =====
-- How the program ends.
use horreum_operator.Common.{
  ℕ, ◌≡◌, refl, ap, ◌∙◌, ◌⊎◌, inl, inr, false, Option-cases, none, some, string_eq,
}
use horreum_operator.Cluster.{Outcome, ok, err, panic, >>=-of-ok, ◌>>=◌, ◌>>◌}
use horreum_operator.Manager.Main.{
  SchemeGroup, client_go, hyperfoil, openshift_route, Flags, Parsed, parsed, asked_for_help,
  invalid, Runtime, Program, must, init, parse, main, run,
}
use horreum_operator.Manager.Main.Course.{IsRun, IsFailed}
use horreum_operator.Manager.Main.Ends.{with_flags, with_flags-Ends}

module _ (R : Runtime) where
  -- The group is added to the scheme, or not.
  abbrev Registers : SchemeGroup → R.World → Type 0
  Registers group w = (R.add_to_scheme group w).0 ≡ none

  abbrev Refuses : SchemeGroup → R.World → Type 0
  Refuses group w = (e : R.Error) × ((R.add_to_scheme group w).0 ≡ some e)

  -- The worlds after the first group, the second and the third.
  abbrev pub registered1 : R.World → R.World
  registered1 w = (R.add_to_scheme client_go w).1

  abbrev pub registered2 : R.World → R.World
  registered2 w = (R.add_to_scheme hyperfoil (registered1 w)).1

  abbrev pub registered : R.World → R.World
  registered w = (R.add_to_scheme openshift_route (registered2 w)).1

  -- The groups are added to the scheme one after the other.
  abbrev pub IsRegistered : R.World → Type 0
  IsRegistered w =
      Registers client_go w
      × Registers hyperfoil (registered1 w)
      × Registers openshift_route (registered2 w)

  -- A group cannot be added after those before it were.
  abbrev pub IsUnregistered : R.World → Type 0
  IsUnregistered w =
      Refuses client_go w
      ⊎ (Registers client_go w × Refuses hyperfoil (registered1 w))
      ⊎ (Registers client_go w
          × Registers hyperfoil (registered1 w)
          × Refuses openshift_route (registered2 w))

  must-cases :
      (group : SchemeGroup) (w : R.World)
      → (Registers group w
          × (must R (R.add_to_scheme group) w ≡ (ok tt, (R.add_to_scheme group w).1)))
        ⊎ (Refuses group w × ((must R (R.add_to_scheme group) w).0 ≡ panic))
  unfolding must
  must-cases group w = elim (Option-cases (R.add_to_scheme group w).0) [
    | inl e ↦ inl (e, rw (must, e) refl)
    | inr (x, e) ↦ inr ((x, e), rw (must, e) refl)
  ]

  bind-ok :
      {A B : Type 0} (m : Program R A) (f : A → Program R B) (w w1 : R.World) (a : A)
      → m w ≡ (ok a, w1)
      → (m >>= f) w ≡ f a w1
  bind-ok m f w w1 a e = >>=-of-ok m f w (ap (λ p. p.0) e) ∙ ap (λ p. f a p.1) e

  init-cases :
      (w : R.World)
      → (IsRegistered w × (init R w ≡ (ok tt, registered w)))
        ⊎ (IsUnregistered w × ((init R w).0 ≡ panic))
  unfolding init
  init-cases w = elim (must-cases client_go w) [
    | inr (h, e) ↦ inr (inl h, rw (e, ◌>>=◌) refl)
    | inl (a, e) ↦ elim (must-cases hyperfoil (registered1 w)) [
      | inr (h, e') ↦ inr (inr (inl (a, h)), ap (λ p. p.0) (first e) ∙ rw (e', ◌>>=◌) refl)
      | inl (b, e') ↦ elim (must-cases openshift_route (registered2 w)) [
        | inr (h, e'') ↦ inr (inr (inr (a, b, h)), ap (λ p. p.0) (first e ∙ second e') ∙ e'')
        | inl (c, e'') ↦ inl ((a, b, c), first e ∙ second e' ∙ e'')
      ]
    ]
  ]
    where
      last : Program R (Unit {0})
      last = must R (R.add_to_scheme openshift_route)

      first :
          must R (R.add_to_scheme client_go) w ≡ (ok tt, registered1 w)
          → (must R (R.add_to_scheme client_go) >> (must R (R.add_to_scheme hyperfoil) >> last)) w
            ≡ (must R (R.add_to_scheme hyperfoil) >> last) (registered1 w)
      first e =
          bind-ok (must R (R.add_to_scheme client_go))
            (λ _. must R (R.add_to_scheme hyperfoil) >> last) w (registered1 w) tt e

      second :
          must R (R.add_to_scheme hyperfoil) (registered1 w) ≡ (ok tt, registered2 w)
          → (must R (R.add_to_scheme hyperfoil) >> last) (registered1 w) ≡ last (registered2 w)
      second e =
          bind-ok (must R (R.add_to_scheme hyperfoil)) (λ _. last) (registered1 w) (registered2 w)
            tt e

  -- `flag.Parse`, with the values that the program gives to flags that are absent.
  abbrev pub arguments : R.World → Parsed × R.World
  arguments =
      R.parse_flags
        (record { metrics_addr = ":8080"; probe_addr = ":8081"; enable_leader_election = false })

  Parsed-cases :
      (answer : Parsed)
      → ((flags : Flags) × (answer ≡ parsed flags)) ⊎ (answer ≡ asked_for_help) ⊎ (answer ≡ invalid)
  Parsed-cases (parsed flags) = inl (flags, refl)
  Parsed-cases asked_for_help = inr (inl refl)
  Parsed-cases invalid = inr (inr refl)

  -- How `main` ends in a world with the groups of types.
  abbrev pub IsEnd : R.World → Outcome ℕ (Unit {0}) → R.World → Type 0
  IsEnd w outcome w' =
      (((arguments w).0 ≡ asked_for_help) × (outcome ≡ err 0))
      ⊎ (((arguments w).0 ≡ invalid) × (outcome ≡ err 2))
      ⊎ ((flags : Flags) × ((arguments w).0 ≡ parsed flags)
          × (((outcome ≡ err 1) × IsFailed R flags (arguments w).1)
              ⊎ ((outcome ≡ ok tt) × IsRun R flags (arguments w).1 w')))

  main-IsEnd : (w : R.World) → IsEnd w (main R w).0 (main R w).1
  unfolding main parse
  main-IsEnd w = elim (Parsed-cases (arguments w).0) [
    | inl (flags, e) ↦ inr (
        inr (
          flags,
          e,
          rw (bind-ok (parse R) (with_flags R) w (arguments w).1 flags (rw (parse, e) refl))
              (elim ((with_flags-Ends R flags).ends (arguments w).1) [
                | inl (_, done, h) ↦ inr (done, h)
                | inr failure ↦ inl failure
              ]),
        ))
    | inr (inl e) ↦ inl (e, rw (parse, e, ◌>>=◌) refl)
    | inr (inr e) ↦ inr (inl (e, rw (parse, e, ◌>>=◌) refl))
  ]

-- The program panics if one of the three groups of types cannot be added to the scheme after those
-- before it. If all are added, the program ends with the status 0 if the arguments ask for the help,
-- and with the status 2 if they are not valid. With valid arguments it returns once the configuration
-- was read, a manager was made with it and the flags, the controller was set up for OpenShift or plain
-- Kubernetes, whichever is there, both checks were added and the manager was started and ended, each
-- without an error and in this order, or it ends with the status 1, and then one of these calls failed
-- after those before it succeeded.
pub run-ends :
    (R : Runtime) (w : R.World)
    → (IsUnregistered R w × ((run R w).0 ≡ panic))
      ⊎ (IsRegistered R w × IsEnd R (registered R w) (run R w).0 (run R w).1)
unfolding run
run-ends R w = elim (init-cases R w) [
  | inl (h, e) ↦ inr (
    h,
    rw (bind-ok R (init R) (λ _. main R) w (registered R w) tt e) (main-IsEnd R (registered R w)),
  )
  | inr (h, e) ↦ inl (h, rw (e, ◌>>=◌) refl)
]
