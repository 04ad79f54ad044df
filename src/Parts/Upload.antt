-- ===== src/Parts/Upload.antt =====
-- `uploadConfig` of controllers/horreum_controller.go: the script that sends Hyperfoil results.
use horreum_operator.Common.{String, ◌<>◌, [], ◌∷◌}
use horreum_operator.Objects.{ConfigMap, empty_meta, empty_config_map}
use horreum_operator.Crd.{Horreum}
use horreum_operator.Defaults.{keycloak_internal_url, inner_protocol}

upload_script : String → String → String
upload_script keycloak_url horreum_url =
    "\n" <> "\t\t\t#!/bin/bash\n" <> "\n" <> "\t\t\tTOKEN=$(curl -s -X POST\t" <> keycloak_url
    <> "/auth/realms/horreum/protocol/openid-connect/token "
    <> " -H 'content-type: application/x-www-form-urlencoded' "
    <> " -d 'username='$HORREUM_USER'&password='$HORREUM_PASSWORD'&grant_type=password&client_id=horreum-ui'"
    <> " | jq -r .access_token)\n" <> "\n" <> "\t\t\tcurl -s\t'" <> horreum_url
    <> "/api/run/data?owner='$HORREUM_GROUP'&access=PUBLIC&test=$.info.benchmark&start=$.info.startTime&stop=$.info.terminateTime'"
    <> " -X POST -H 'content-type: application/json' -d @$RUN_DIR/all.json -H 'Authorization: Bearer '$TOKEN\n"
    <> "\t\t\t"

unfoldable pub upload_config : Horreum → ConfigMap
unfolding upload_script
upload_config cr =
    let keycloak_url = keycloak_internal_url cr in
    let horreum_url =
      inner_protocol cr.spec.route <> cr.metadata.name <> "." <> cr.metadata.namespace <> ".svc" in
    record empty_config_map {
      metadata = record empty_meta {
        name = cr.metadata.name <> "-hyperfoil-upload";
        namespace = cr.metadata.namespace;
      };
      data_map = ("50-upload-to-horreum", upload_script keycloak_url horreum_url) ∷ [];
    }
