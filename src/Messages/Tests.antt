-- ===== src/Messages/Tests.antt =====
-- An authentication result that is accepted, and its properties.
use intranet_penetration_clo.Common.{◌≡◌, refl, some, replicate}
use intranet_penetration_clo.Common.Result.{ok}
use intranet_penetration_clo.Json.{Json, Runtime, num, str, obj, field, end, get_field}
use intranet_penetration_clo.Messages.{AuthenticationInfo, parse_authentication_info}
use intranet_penetration_clo.Messages.Laws.{
  IsAuthentication, parse_authentication_info-IsAuthentication,
}

abbrev confirmed : Json
confirmed = obj (
    field "auth_level" (str "NetworkSecretConfirmed") (
      field "peer_id" (num 7)
        (field "network_name" (str "home") (field "remote_public_key_base64" (str "key") end))))

abbrev runtime : Runtime
runtime = record {
  json_parse = λ text. some confirmed;
  atob = λ text. some (replicate 32 1);
  to_number = λ text. some 0;
}

abbrev info : AuthenticationInfo
info = record { peer_id = 7; network_name = "home"; remote_public_key = replicate 32 1 }

parse_authentication_info_runs : parse_authentication_info runtime "{…}" ≡ ok info
unfolding parse_authentication_info get_field
parse_authentication_info_runs = refl

parse_authentication_info_example : IsAuthentication runtime "{…}" info
parse_authentication_info_example =
    parse_authentication_info-IsAuthentication runtime "{…}" info parse_authentication_info_runs
