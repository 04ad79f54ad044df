-- ===== src/Ensure/Errors.antt =====
-- `ensureSame` and `ensureDeleted` where they fail, and `ensureSame` where it has nothing to do.
use horreum_operator.Common.{
  arith, string_eq, String, ◌<>◌, ◌≡◌, refl, inl, inr, Bool, true, false, Option, none, some,
  if◌then◌else◌,
}
use horreum_operator.Objects.{Kind, Resource, to_object, meta, with_meta, key_of, ObjectMeta}
use horreum_operator.Crd.{Horreum}
use horreum_operator.Cluster.{
  Api, State, M, Reply, found, failed, call, pure, raise, ok, err, Outcome-cases, ◌>>=◌, ◌>>◌,
}
use horreum_operator.Status.{set_status, update_status, next_status}
use horreum_operator.Status.Sticky.{update_status-Error}
use horreum_operator.Ensure.{
  CompareFunc, CheckFunc, Verdict, describe, create_object, recreate_object, report, settle,
  ensure_owned, ensure_same, discard, ensure_deleted,
}

module _ (api : Api) where
  -- If the action ends by an error, it leaves the status `Error`.
  record Shows {A : Type 0} (m : M api A) : Type 0 where
    shown : (s : State api) (e : api.Error) → (m s).0 ≡ err e → (m s).1.status.status ≡ "Error"

  pure-Shows : {A : Type 0} (a : A) → Shows (pure a)
  pure-Shows a = record { shown = λ s e h. cc }

  call-Shows : {A : Type 0} (f : api.World → A × api.World) → Shows (call api f)
  call-Shows f = record { shown = λ s e h. cc }

  set_status-Shows : (status reason : String) → Shows (set_status api status reason)
  unfolding set_status
  set_status-Shows status reason = record { shown = λ s e h. ground arith }

  if-Shows :
      {A : Type 0} (b : Bool) {m n : M api A} → Shows m → Shows n → Shows (if b then m else n)
  if-Shows true hm hn = hm
  if-Shows false hm hn = hn

  bind-Shows :
      {A B : Type 0} (m : M api A) (f : A → M api B)
      → Shows m
      → ((a : A) → Shows (f a))
      → Shows (m >>= f)
  bind-Shows m f hm hf = record {
    shown = λ s e h. elim (Outcome-cases (m s).0) [
      | inl (a, q) ↦ rw (q, ◌>>=◌) ((hf a).shown (m s).1 e (rw (q, ◌>>=◌) at h))
      | inr (inl (x, q)) ↦ rw (q, ◌>>=◌) (hm.shown s x q)
      | inr (inr q) ↦ cc (rw (q, ◌>>=◌) at h)
    ];
  }

  -- `r.updateStatus(…, "Error", …); return err`
  report-Shows :
      {A : Type 0} (cr : Horreum) (reason : String) (x : api.Error)
      → Shows {A = A} (update_status api cr "Error" reason >> raise x)
  unfolding next_status
  report-Shows cr reason x = record {
    shown = λ s e h.
        rw (update_status-Error api cr reason s, ◌>>=◌)
          (rw (update_status-Error api cr reason s) refl);
  }

  module _ (cr : Horreum) where
    create_object-Shows : (k : Kind) (object : Resource k) → Shows (create_object api cr k object)
    unfolding create_object
    create_object-Shows k object =
        bind-Shows _ _ (call-Shows (api.create k object)) λ error. after error
      where
        after :
            (error : Option api.Error)
            → Shows (elim error [
              | none ↦ set_status api "Pending" ("Creating " <> describe k object)
              | some e ↦
                  update_status api cr "Error" ("Cannot create " <> describe k object) >> raise e
            ])
        after none = set_status-Shows "Pending" ("Creating " <> describe k object)
        after (some e) = report-Shows cr ("Cannot create " <> describe k object) e

    recreate_object-Shows :
        (k : Kind) (object out : Resource k) → Shows (recreate_object api cr k object out)
    unfolding recreate_object
    recreate_object-Shows k object out =
        bind-Shows _ _ (call-Shows (api.delete k out)) λ error. after error
      where
        after :
            (error : Option api.Error)
            → Shows (elim error [
              | none ↦ create_object api cr k object
              | some e ↦
                  update_status api cr "Error" ("Cannot delete " <> describe k object) >> raise e
            ])
        after none = create_object-Shows k object
        after (some e) = report-Shows cr ("Cannot delete " <> describe k object) e

    report_verdict-Shows :
        (k : Kind) (object : Resource k) (verdict : Verdict)
        → Shows (report api cr k object verdict)
    unfolding report
    report_verdict-Shows k object (well, status, reason) =
        if-Shows well (pure-Shows tt) (set_status-Shows status (describe k object <> " " <> reason))

    settle-Shows :
        (k : Kind) (object : Resource k) (compare : CompareFunc) (check : CheckFunc)
        (reply : Reply api.Error (Resource k))
        → Shows (settle api cr k object compare check reply)
    unfolding settle
    settle-Shows k object compare check (failed e) =
        if-Shows (api.is_not_found e)
          (bind-Shows _ _ (create_object-Shows k object) (λ _. pure-Shows none))
          (report-Shows cr ("Cannot find " <> describe k object) e)
    settle-Shows k object compare check (found out) =
        if-Shows (compare (to_object k object) (to_object k out))
          (bind-Shows _ _ (report_verdict-Shows k object (check (to_object k out)))
            (λ _. pure-Shows (some out)))
          (bind-Shows _ _ (recreate_object-Shows k object out) (λ _. pure-Shows (some out)))

    ensure_owned-Shows :
        (k : Kind) (object : Resource k) (compare : CompareFunc) (check : CheckFunc)
        → Shows (ensure_owned api cr k object compare check)
    unfolding ensure_owned
    ensure_owned-Shows k object compare check =
        bind-Shows _ _ (call-Shows (api.get k (key_of (meta k object))))
          (λ reply. settle-Shows k object compare check reply)

    discard-Shows :
        (k : Kind) (object : Resource k) (reply : Reply api.Error (Resource k))
        → Shows (discard api cr k object reply)
    unfolding discard
    discard-Shows k object (failed e) =
        if-Shows (api.is_not_found e) (pure-Shows tt)
          (report-Shows cr ("Cannot find " <> describe k object) e)
    discard-Shows k object (found out) =
        bind-Shows _ _ (call-Shows (api.delete k out)) λ error. after error
      where
        after :
            (error : Option api.Error)
            → Shows (elim error [
              | none ↦ pure tt
              | some e ↦
                  update_status api cr "Error" ("Cannot delete " <> describe k object) >> raise e
            ])
        after none = pure-Shows tt
        after (some e) = report-Shows cr ("Cannot delete " <> describe k object) e

    ensure_deleted-Shows : (k : Kind) (object : Resource k) → Shows (ensure_deleted api cr k object)
    unfolding ensure_deleted
    ensure_deleted-Shows k object =
        bind-Shows _ _ (call-Shows (api.get k (key_of (meta k object))))
          (λ reply. discard-Shows k object reply)

-- If the owner reference can be set and `ensureSame` ends by an error, whether in reading, creating
-- or deleting, the status is `Error` after it.
pub ensure_same-err :
    (api : Api) (cr : Horreum) (k : Kind) (object : Resource k) (compare : CompareFunc)
    (check : CheckFunc) (m : ObjectMeta) (s : State api) (e : api.Error)
    → api.set_controller_reference cr (meta k object) ≡ found m
    → (ensure_same api cr k object compare check s).0 ≡ err e
    → (ensure_same api cr k object compare check s).1.status.status ≡ "Error"
unfolding ensure_same
ensure_same-err api cr k object compare check m s e owned h =
    rw (ensure_same, owned)
      ((ensure_owned-Shows api cr k (with_meta k object m) compare check).shown s e
        (rw (ensure_same, owned) at h))

-- If the owner reference can be set, and the object is there, matches and passes its check,
-- `ensureSame` returns it after the one read and leaves the status as it was.
pub ensure_same-well :
    (api : Api) (cr : Horreum) (k : Kind) (object out : Resource k) (compare : CompareFunc)
    (check : CheckFunc) (m : ObjectMeta) (s : State api)
    → api.set_controller_reference cr (meta k object) ≡ found m
    → (api.get k (key_of (meta k (with_meta k object m))) s.world).0 ≡ found out
    → compare (to_object k (with_meta k object m)) (to_object k out) ≡ true
    → (check (to_object k out)).0 ≡ true
    → ensure_same api cr k object compare check s ≡ (
      ok (some out),
      record s { world = (api.get k (key_of (meta k (with_meta k object m))) s.world).1 },
    )
unfolding ensure_same ensure_owned settle report
ensure_same-well api cr k object out compare check m s owned there same well =
    rw (ensure_same, owned, ◌>>=◌) (rw (there, same) (rw (well, ◌>>=◌) (rw (report, well) refl)))

-- If `ensureDeleted` ends by an error, in reading or in deleting, the status is `Error` after it.
pub ensure_deleted-err :
    (api : Api) (cr : Horreum) (k : Kind) (object : Resource k) (s : State api) (e : api.Error)
    → (ensure_deleted api cr k object s).0 ≡ err e
    → (ensure_deleted api cr k object s).1.status.status ≡ "Error"
ensure_deleted-err api cr k object s e h = (ensure_deleted-Shows api cr k object).shown s e h
