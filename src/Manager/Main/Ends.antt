-- ===== src/Manager/Main/Ends.antt =====
-- How the actions of `main` end: one rule for each way to build one, and what follows the flags.
use horreum_operator.Common.{
  ◌≡◌, refl, sym, ap, ◌↔◌, ◌⊎◌, inl, inr, Bool, true, false, Option, Option-cases, none, some, [],
  ◌∷◌, if◌then◌else◌, string_eq,
}
use mathlib.Core.Path.{subst}
use horreum_operator.Objects.{Kind}
use horreum_operator.Cluster.{Reply-cases, found, failed, ok, err, >>=-of-ok, ◌>>=◌, ◌>>◌}
use horreum_operator.Manager.{detect_routes, new_reconciler, owned_kinds}
use horreum_operator.Manager.Setup.{detect_routes_iff}
use horreum_operator.Manager.Main.{
  Flags, Runtime, manager_options, Program, exit_on_error, get_config_or_die, make_manager,
  discover, setup_with_manager, serve,
}
use horreum_operator.Manager.Main.Course.{
  IsOpenshift, complete, IsServed, IsRun, IsFailing, FailsOr, IsUnserved, IsUnmanaged, IsFailed,
}

owned_kinds-new_reconciler :
    (routes : Bool)
    → owned_kinds (new_reconciler routes) ≡ (
        if routes
        then Kind.pod ∷ Kind.service ∷ Kind.secret ∷ Kind.config_map ∷ Kind.route ∷ []
        else Kind.pod ∷ Kind.service ∷ Kind.secret ∷ Kind.config_map ∷ [])
unfolding owned_kinds new_reconciler
owned_kinds-new_reconciler true = refl
owned_kinds-new_reconciler false = refl

module _ (R : Runtime) where
  -- The action returns with `P`, or ends the process with the status 1 and with `F`.
  pub record Ends {A : Type 0} (m : Program R A) (P : R.World → A → R.World → Type 0)
      (F : R.World → Type 0) : Type 0 where
    pub ends :
        (w : R.World) → ((a : A) × ((m w).0 ≡ ok a) × P w a (m w).1) ⊎ (((m w).0 ≡ err 1) × F w)

  bind-Ends :
      {A B : Type 0} (P : R.World → A → R.World → Type 0) (F : R.World → Type 0)
      (G : A → R.World → Type 0) {Q : R.World → B → R.World → Type 0} (m : Program R A)
      (f : A → Program R B)
      → Ends m P F
      → ((a : A) → Ends (f a) (λ w b w''. (w0 : R.World) → P w0 a w → Q w0 b w'') (G a))
      → Ends (m >>= f) Q (λ w. F w ⊎ ((a : A) × (w1 : R.World) × P w a w1 × G a w1))
  bind-Ends P F G m f hm hf = record {
    ends = λ w. elim (hm.ends w) [
      | inl (a, e, p) ↦ rw (>>=-of-ok m f w e) (elim ((hf a).ends (m w).1) [
        | inl (b, e', q) ↦ inl (b, e', q w p)
        | inr (e', g) ↦ inr (e', inr (a, (m w).1, p, g))
      ])
      | inr (e, h) ↦ inr (rw (e, ◌>>=◌) refl, inl h)
    ];
  }

  weaken-Ends :
      {A : Type 0} {P Q : R.World → A → R.World → Type 0} {F G : R.World → Type 0} {m : Program R A}
      → ((w : R.World) (a : A) (w' : R.World) → P w a w' → Q w a w')
      → ((w : R.World) → F w → G w)
      → Ends m P F
      → Ends m Q G
  weaken-Ends k l h = record {
    ends = λ w. elim (h.ends w) [
      | inl (a, e, p) ↦ inl (a, e, k w a _ p)
      | inr (e, failure) ↦ inr (e, l w failure)
    ];
  }

  exit_on_error-Ends :
      (f : R.World → Option R.Error × R.World)
      → Ends (exit_on_error R f) (λ w _ w'. f w ≡ (none, w')) (IsFailing R f)
  unfolding exit_on_error
  exit_on_error-Ends f = record {
    ends = λ w. elim (Option-cases (f w).0) [
      | inl e ↦ rw (exit_on_error, e) (inl (tt, refl, refl))
      | inr (x, e) ↦ rw (exit_on_error, e) (inr (refl, (x, refl)))
    ];
  }

  then-Ends :
      (f : R.World → Option R.Error × R.World) (m : Program R (Unit {0})) (G : R.World → Type 0)
      {Q : R.World → Unit {0} → R.World → Type 0}
      → Ends m (λ w b w''. (w0 : R.World) → f w0 ≡ (none, w) → Q w0 b w'') G
      → Ends (exit_on_error R f >> m) Q (FailsOr R f G)
  then-Ends f m G h =
      weaken-Ends (λ w a w' q. q)
        (λ w failure. elim failure [
          | inl e ↦ inl e
          | inr (_, w1, succeeds, g) ↦ inr (w1, succeeds, g)
        ])
        (bind-Ends (λ w _ w'. f w ≡ (none, w')) (IsFailing R f) (λ _. G) (exit_on_error R f)
          (λ _. m) (exit_on_error-Ends f) (λ _. h))

  serve-Ends :
      (mgr : R.Manager) (routes : Bool)
      → Ends (serve R mgr routes) (λ w _ w'. IsServed R mgr routes w w') (IsUnserved R mgr routes)
  unfolding serve setup_with_manager new_reconciler
  serve-Ends mgr routes =
      subst
        (λ f.
          Ends
            (exit_on_error R f
              >> (exit_on_error R (R.add_healthz_check mgr "healthz")
                  >> (exit_on_error R (R.add_readyz_check mgr "readyz")
                      >> exit_on_error R (R.start mgr))))
            (λ w _ w'. IsServed R mgr routes w w') (IsUnserved R mgr routes))
        (ap (λ kinds. R.complete mgr (new_reconciler routes) kinds)
          (sym (owned_kinds-new_reconciler routes)))
        (then-Ends (complete R mgr routes) _ _ (
          then-Ends _ _ _ (
            then-Ends _ _ _ (
              weaken-Ends
                (λ w3 _ w4 started w2 ready w1 live w0 controller. record {
                  with_controller = w1;
                  with_live = w2;
                  with_ready = w3;
                  controller = controller;
                  live = live;
                  ready = ready;
                  started = started;
                })
                (λ _ failure. failure) (exit_on_error-Ends (R.start mgr))))))

  get_config_or_die-Ends :
      Ends
        (get_config_or_die R)
        (λ w config w'. R.get_config_or_die w ≡ (some config, w'))
        (λ w. (R.get_config_or_die w).0 ≡ none)
  unfolding get_config_or_die
  get_config_or_die-Ends = record {
    ends = λ w. elim (Option-cases (R.get_config_or_die w).0) [
      | inl e ↦ rw (get_config_or_die, e) (inr (refl, refl))
      | inr (config, e) ↦ rw (get_config_or_die, e) (inl (config, refl, refl))
    ];
  }

  make_manager-Ends :
      (config : R.Config) (flags : Flags)
      → Ends
          (make_manager R config flags)
          (λ w mgr w'. R.new_manager config (manager_options flags) w ≡ (found mgr, w'))
          (λ w. (e : R.Error) × ((R.new_manager config (manager_options flags) w).0 ≡ failed e))
  unfolding make_manager
  make_manager-Ends config flags = record {
    ends = λ w. elim (Reply-cases (R.new_manager config (manager_options flags) w).0) [
      | inl (mgr, e) ↦ rw (make_manager, e) (inl (mgr, refl, refl))
      | inr (x, e) ↦ rw (make_manager, e) (inr (refl, (x, refl)))
    ];
  }

  -- What follows the flags.
  abbrev pub with_flags : Flags → Program R (Unit {0})
  with_flags flags = get_config_or_die R >>= λ config.
      make_manager R config flags >>= λ mgr. discover R >>= serve R mgr

  -- The detection, and what it leads to.
  discover-Ends :
      (mgr : R.Manager)
      → Ends
          (discover R >>= serve R mgr)
          (λ w _ w'.
            (routes : Bool) × ((routes ≡ true) ↔ IsOpenshift R w) × IsServed R mgr routes w w')
          (λ w. (routes : Bool) × ((routes ≡ true) ↔ IsOpenshift R w) × IsUnserved R mgr routes w)
  unfolding discover
  discover-Ends mgr = record {
    ends = λ w.
        let names = λ (c : R.Client). R.server_groups c w in
        let routes = detect_routes (R.get_config w) R.new_discovery_client names in
        let seen = detect_routes_iff (R.get_config w) R.new_discovery_client names in
        elim ((serve-Ends mgr routes).ends w) [
          | inl (_, e, served) ↦ inl (tt, e, (routes, seen, served))
          | inr (e, unserved) ↦ inr (e, (routes, seen, unserved))
        ];
  }

  pub with_flags-Ends :
      (flags : Flags) → Ends (with_flags flags) (λ w _ w'. IsRun R flags w w') (IsFailed R flags)
  unfolding manager_options
  with_flags-Ends flags =
      bind-Ends (λ w config w'. R.get_config_or_die w ≡ (some config, w'))
        (λ w. (R.get_config_or_die w).0 ≡ none) (IsUnmanaged R flags) _ _ get_config_or_die-Ends
        (λ config.
          bind-Ends (λ w mgr w'. R.new_manager config (manager_options flags) w ≡ (found mgr, w'))
            (λ w. (e : R.Error) × ((R.new_manager config (manager_options flags) w).0 ≡ failed e))
            (λ mgr w.
              (routes : Bool) × ((routes ≡ true) ↔ IsOpenshift R w) × IsUnserved R mgr routes w)
            _ _ (make_manager-Ends config flags)
            (λ mgr.
              weaken-Ends
                (λ w2 _ w3 (routes, seen, served) w1 made w0 read.
                  (config, mgr, routes, w1, w2, read, made, seen, served))
                (λ _ failure. failure) (discover-Ends mgr)))
