-- ===== src/Tests/Secrets.antt =====
-- Passwords, secrets and the authority, made in memory.
use horreum_operator.Common.{String, ◌≡◌, refl, some, [], string_eq}
use horreum_operator.Objects.{Secret}
use horreum_operator.Cluster.{State, ok, found}
use horreum_operator.Secrets.{generate_password, new_secret}
use horreum_operator.Secrets.Passwords.{
  IsBounded, IsPassword, IsUserSecret, generate_password-IsPassword, new_secret-IsUserSecret,
}
use horreum_operator.Certs.{Crypto, Certificate, ca_template, obtain_ca}
use horreum_operator.Certs.RoundTrip.{IsReadable}
use horreum_operator.Certs.Authority.{IsSigning, KeepsData, obtain_ca-again}
use horreum_operator.Status.Truthful.{observe}
use horreum_operator.Tests.Laws.{kept, memory_api-IsStore}
use mathlib.Core.List.{append-nil}
use horreum_operator.Tests.Memory.{
  memory_api-IsQuiet, memory_api-KeepsKeys, memory_api, memory_crypto, sample, start,
}

memory_api-IsBounded : IsBounded memory_api
memory_api-IsBounded n w h = h

generate_password-IsPassword_example :
    (p : String) × ((generate_password memory_api (start [])).0 ≡ ok p) × IsPassword 16 p
generate_password-IsPassword_example =
    generate_password-IsPassword memory_api memory_api-IsBounded (start [])

new_secret-IsUserSecret_example :
    (secret : Secret) × ((new_secret memory_api sample "horreum-admin" (start [])).0 ≡ ok secret)
    × IsUserSecret memory_api memory_api-IsBounded sample "horreum-admin" secret
new_secret-IsUserSecret_example =
    new_secret-IsUserSecret memory_api memory_api-IsBounded sample "horreum-admin" (start [])

-- Every text parses as one certificate, and a PEM block is its bytes.
abbrev authority : Certificate
authority = ca_template memory_api memory_crypto 0 1

abbrev plain_crypto : Crypto memory_api
plain_crypto = record memory_crypto {
  parse_certificate = λ bytes. found authority;
  pem_decode = some;
}

plain_crypto-IsReadable : IsReadable plain_crypto
plain_crypto-IsReadable = record { pem_readable = λ kind bytes. refl; key_readable = λ key. refl }

plain_crypto-IsSigning : IsSigning plain_crypto
plain_crypto-IsSigning template parent key signer w bytes signed = (authority, refl)

kept-KeepsData : KeepsData kept
kept-KeepsData secret plain = rw plain (append-nil secret.data_map)

-- The states after the authority was made, and after another second.
abbrev once : State memory_api
once = (obtain_ca memory_api plain_crypto sample (start [])).1

abbrev later : State memory_api
later = record once { world = record once.world { clock = 60 } }

obtain_ca-again_example :
    (again : Certificate) × ((obtain_ca memory_api plain_crypto sample later).0
      ≡ ok (again, "key", "ca.horreum.hyperfoil.io"))
    × ((obtain_ca memory_api plain_crypto sample later).1.status ≡ later.status)
    × (observe memory_api (obtain_ca memory_api plain_crypto sample later).1.world
        ≡ observe memory_api later.world)
unfolding obtain_ca ca_template
obtain_ca-again_example =
    obtain_ca-again memory_api plain_crypto kept sample memory_api-IsQuiet memory_api-IsStore
      memory_api-KeepsKeys kept-KeepsData plain_crypto-IsReadable plain_crypto-IsSigning (start [])
      later authority "key" "ca.horreum.hyperfoil.io" refl refl
