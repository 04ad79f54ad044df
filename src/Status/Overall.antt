-- ===== src/Status/Overall.antt =====
-- What is left of a sequence of calls of `setStatus`, as the phases of a reconciliation make them.
use horreum_operator.Common.{
  String, ◌≡◌, ◌≢◌, refl, sym, ap, ◌⊎◌, inl, inr, List, [], ◌∷◌, ◌++◌, string_eq, eq_iff, arith,
}
use mathlib.Core.Path.{subst}
use horreum_operator.Crd.{HorreumStatus}
use horreum_operator.Cluster.{Api, State, ok}
use horreum_operator.Status.{set_status}
use horreum_operator.Status.Sticky.{written, set_status_lem}

-- A call of `setStatus` with `Error` or with `Pending`, and its reason.
pub data Note : Type 0 where
  fault wait : String → Note

-- The sequence holds calls with `Pending` alone.
abbrev pub IsWaiting : List Note → Type 0
IsWaiting [] = Unit
IsWaiting (fault _ ∷ notes) = ⊥
IsWaiting (wait _ ∷ notes) = IsWaiting notes

module _ (api : Api) where
  abbrev pub after_note : Note → State api → State api
  after_note (fault reason) s = (set_status api "Error" reason s).1
  after_note (wait reason) s = (set_status api "Pending" reason s).1

  abbrev pub after_notes : List Note → State api → State api
  after_notes [] s = s
  after_notes (note ∷ notes) s = after_notes notes (after_note note s)

  abbrev Shows : String → String → HorreumStatus → Type 0
  Shows status reason shown = (shown.status ≡ status) × (shown.reason ≡ reason)

  -- What the last call with `Error` said, if there is one; else the status before, if this was `Error`
  -- or if there is no call; else what the last call said.
  abbrev pub Prevails : List Note → HorreumStatus → HorreumStatus → Type 0
  Prevails notes old shown =
      ((before : List Note) × (reason : String) × (after : List Note) × (notes
          ≡ before ++ (fault reason ∷ after))
        × IsWaiting after
        × Shows "Error" reason shown)
      ⊎ (IsWaiting notes × (old.status ≡ "Error") × (shown ≡ old))
      ⊎ ((notes ≡ []) × (shown ≡ old))
      ⊎ ((old.status ≢ "Error")
          × ((before : List Note) × (reason : String) × (notes ≡ before ++ (wait reason ∷ []))
              × IsWaiting before
              × Shows "Pending" reason shown))

  Error-ne-Pending : ◌≢◌ {A = String} "Error" "Pending"
  Error-ne-Pending h = ground (arith, eq_iff "Error" "Pending")

  after_fault :
      (reason : String) (s : State api)
      → set_status api "Error" reason s ≡ (ok tt, written api "Error" reason s)
  after_fault reason s = elim (set_status_lem api "Error" reason s) [
    | inl (_, p, _) ↦ absurd (Error-ne-Pending p)
    | inr (_, e) ↦ e
  ]

  fault-Prevails :
      (reason : String) (notes : List Note) (old middle shown : HorreumStatus)
      → Shows "Error" reason middle
      → Prevails notes middle shown
      → Prevails (fault reason ∷ notes) old shown
  fault-Prevails reason notes old middle shown (e, why) h = elim h [
    | inl (before, last, after, split, waiting, shows) ↦
        inl (fault reason ∷ before, last, after, ap (λ ns. fault reason ∷ ns) split, waiting, shows)
    | inr (inl (waiting, _, same)) ↦
        inl ([], reason, notes, refl, waiting, (rw same e, rw same why))
    | inr (inr (inl (none_left, same))) ↦
        inl ([], reason, notes, refl, rw none_left tt, (rw same e, rw same why))
    | inr (inr (inr (differs, _))) ↦ absurd (differs e)
  ]

  -- The status was `Error`, and a call with `Pending` leaves it.
  kept-Prevails :
      (reason : String) (notes : List Note) (old shown : HorreumStatus)
      → old.status ≡ "Error"
      → Prevails notes old shown
      → Prevails (wait reason ∷ notes) old shown
  kept-Prevails reason notes old shown e h = elim h [
    | inl (before, last, after, split, waiting, shows) ↦
        inl (wait reason ∷ before, last, after, ap (λ ns. wait reason ∷ ns) split, waiting, shows)
    | inr (inl (waiting, _, same)) ↦ inr (inl (waiting, e, same))
    | inr (inr (inl (none_left, same))) ↦ inr (inl (rw none_left tt, e, same))
    | inr (inr (inr (differs, _))) ↦ absurd (differs e)
  ]

  wait-Prevails :
      (reason : String) (notes : List Note) (old middle shown : HorreumStatus)
      → old.status ≢ "Error"
      → Shows "Pending" reason middle
      → Prevails notes middle shown
      → Prevails (wait reason ∷ notes) old shown
  wait-Prevails reason notes old middle shown differs (p, why) h = elim h [
    | inl (before, last, after, split, waiting, shows) ↦
        inl (wait reason ∷ before, last, after, ap (λ ns. wait reason ∷ ns) split, waiting, shows)
    | inr (inl (_, e, _)) ↦ absurd (ground (arith, eq_iff "Error" "Pending", e, p))
    | inr (inr (inl (none_left, same))) ↦ inr (
        inr (
          inr (
            differs,
            ([], reason, ap (λ ns. wait reason ∷ ns) none_left, tt, (rw same p, rw same why)),
          )))
    | inr (inr (inr (_, (before, last, split, waiting, shows)))) ↦ inr (
        inr (
          inr (
            differs,
            (wait reason ∷ before, last, ap (λ ns. wait reason ∷ ns) split, waiting, shows),
          )))
  ]

  -- After any sequence of calls of `setStatus` with `Error` or `Pending`, the status is `Error` with the
  -- reason of the last call with `Error` if there is such a call. Else it is untouched if it was `Error`
  -- before or there is no call at all, and in any other case `Pending` with the reason of the last call.
  pub after_notes-Prevails :
      (notes : List Note) (s : State api) → Prevails notes s.status (after_notes notes s).status
  after_notes-Prevails [] s = inr (inr (inl (refl, refl)))
  after_notes-Prevails (fault reason ∷ notes) s =
      fault-Prevails reason notes s.status _ _ (rw (after_note, after_fault reason s) (refl, refl))
        (after_notes-Prevails notes (after_note (fault reason) s))
  after_notes-Prevails (wait reason ∷ notes) s = elim (set_status_lem api "Pending" reason s) [
    | inl (e, _, same) ↦
        let at_rest : s ≡ after_note (wait reason) s = sym (ap (λ p. p.1) same) in
        kept-Prevails reason notes s.status _ e (
          subst (λ t. Prevails notes s.status (after_notes notes t).status) at_rest
            (after_notes-Prevails notes s))
    | inr (n, changed) ↦
        wait-Prevails reason notes s.status _ _ (λ e. n (e, refl))
          (rw (after_note, changed) (refl, refl))
          (after_notes-Prevails notes (after_note (wait reason) s))
  ]
