-- ===== src/Certs/Still.antt =====
-- The actions of controllers/certificates.go that change nothing and end in the same way in every
-- state, `load_ca` among them.
use horreum_operator.Common.{String, ◌≡◌, refl, ap, ◌∙◌, Option, none, some}
use horreum_operator.Objects.{Secret}
use horreum_operator.Cluster.{
  Api, State, M, Reply, Outcome, found, failed, pure, raise, ok, err, panic, from_reply, ◌>>=◌,
  >>=-of-ok,
}
use horreum_operator.Status.Truthful.{Observation}
use horreum_operator.Ensure.Leaves.{Leaves, bind-Leaves, weaken-Leaves}
use horreum_operator.Certs.{Crypto, decode_or, load_ca}

module _ (api : Api) where
  -- The action changes nothing, and ends in the same way in every state.
  pub record IsStill {A : Type 0} (m : M api A) : Type 0 where
    pub outcome : Outcome api.Error A
    pub still : (s : State api) → m s ≡ (outcome, s)

  bind-IsStill :
      {A B : Type 0} (m : M api A) (f : A → M api B)
      → IsStill m
      → ((a : A) → IsStill (f a))
      → IsStill (m >>= f)
  bind-IsStill {A} {B} m f hm hf = after hm.outcome hm.still
    where
      after : (o : Outcome api.Error A) → ((s : State api) → m s ≡ (o, s)) → IsStill (m >>= f)
      after (ok a) same = record {
        outcome = (hf a).outcome;
        still = λ s.
            >>=-of-ok m f s (ap (λ p. p.0) (same s)) ∙ ap (λ p. f a p.1) (same s) ∙ (hf a).still s;
      }
      after (err e) same = record {
        outcome = err e;
        still = λ s. rw (◌>>=◌, same s) (ap (λ p. (err e, p.1)) (same s));
      }
      after panic same = record {
        outcome = panic;
        still = λ s. rw (◌>>=◌, same s) (ap (λ p. (panic, p.1)) (same s));
      }

  from_reply-IsStill : {A : Type 0} (reply : Reply api.Error A) → IsStill (from_reply reply)
  from_reply-IsStill (found a) = record { outcome = ok a; still = λ s. refl }
  from_reply-IsStill (failed e) = record { outcome = err e; still = λ s. refl }

  -- What an action leaves whatever came before it, after any other action.
  pub then-Leaves :
      {A B : Type 0} (R : B → Observation api → Type 0) (m : M api A) (f : A → M api B)
      → ((a : A) → Leaves api (f a) (λ _ b o'. R b o'))
      → Leaves api (m >>= f) (λ _ b o'. R b o')
  then-Leaves R m f h =
      bind-Leaves api (λ _ _ _. Unit {0}) m f (record { leaves = λ s a e. tt })
        (λ a. weaken-Leaves api (λ o b o' r o0 _. r) (h a))

  pub from_reply-found :
      {A : Type 0} (reply : Reply api.Error A) (s : State api) (a : A)
      → (from_reply {S = State api} reply s).0 ≡ ok a
      → reply ≡ found a
  from_reply-found (found b) s a e = cc
  from_reply-found (failed x) s a e = cc

module _ (api : Api) (crypto : Crypto api) where
  decode_or-IsStill : (text what : String) → IsStill api (decode_or api crypto text what)
  decode_or-IsStill text what = decoded (crypto.pem_decode text)
    where
      decoded :
          (bytes : Option String)
          → IsStill api {A = String}
              (elim bytes [ some b ↦ pure b | none ↦ raise (api.new_error what) ])
      decoded (some b) = record { outcome = ok b; still = λ s. refl }
      decoded none = record { outcome = err (api.new_error what); still = λ s. refl }

  pub load_ca-IsStill : (secret : Secret) → IsStill api (load_ca api crypto secret)
  unfolding load_ca
  load_ca-IsStill secret = bind-IsStill api _ _ (decode_or-IsStill _ _) (λ cert_bytes.
      bind-IsStill api _ _ (from_reply-IsStill api (crypto.parse_certificate cert_bytes)) (λ ca.
        bind-IsStill api _ _ (decode_or-IsStill _ _) (λ key_bytes.
          bind-IsStill api _ _ (from_reply-IsStill api (crypto.parse_private_key key_bytes))
            (λ key. record { outcome = ok _; still = λ s. refl }))))
