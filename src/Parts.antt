-- ===== src/Parts.antt =====
-- The objects that the operator builds from a custom resource: the pure parts of
-- controllers/utils.go, and controllers/postgres.go, keycloak.go and app.go.
pub mod Service
pub mod Wiring
pub mod Postgres
pub mod Keycloak
pub mod App
pub mod Upload
