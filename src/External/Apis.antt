-- ===== src/External/Apis.antt =====
-- external/apis/: the external APIs that the settings configure. Their rate limits and health
-- endpoints, which nothing reads, are left out.
use apicenter_hehe.Common.{[], ◌∷◌}
use apicenter_hehe.Common.Dict.{Dict}
use apicenter_hehe.Config.{ConfigService}
use apicenter_hehe.External.{ExternalApiConfig, bearer, api_key_camel}

abbrev create_geolocation_api : ConfigService → ExternalApiConfig
create_geolocation_api c = record {
  display_name = "Geolocation API";
  base_url = c.geolocation.url;
  auth_type = api_key_camel;
  auth_header = "apiKey";
  auth_value = c.geolocation.key;
  timeout = 10000;
}

abbrev pub create_geofencing_api : ConfigService → ExternalApiConfig
create_geofencing_api c = record {
  display_name = "Geofencing API";
  base_url = c.geofencing.url;
  auth_type = bearer;
  auth_header = "Authorization";
  auth_value = c.geofencing.key;
  timeout = 10000;
}

abbrev pub build_external_apis : ConfigService → Dict ExternalApiConfig
build_external_apis c =
    ("geolocation", create_geolocation_api c) ∷ ("geofencing", create_geofencing_api c) ∷ []
