-- ===== src/Certs/Names.antt =====
-- The names that the pods use for one another, and the names in the certificates.
use horreum_operator.Common.{string_eq}
