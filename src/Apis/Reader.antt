-- ===== src/Apis/Reader.antt =====
-- What the controllers read from the Kubernetes API server, as the answers of one pass: `client.Reader`
-- is not in the repository. An object that is absent is the error `not_found`.
use provider_runpod.Base.{String, List, Result}
use provider_runpod.Apis.{EndpointResource, TemplateResource, EndpointCheck}
use provider_runpod.Credentials.{Secret}

pub record Reader : Type 0 where
  -- by namespace and name
  pub get_endpoint : String → String → Result EndpointResource
  pub get_template : String → String → Result TemplateResource
  pub get_secret : String → String → Result Secret
  -- by namespace
  pub list_checks : String → Result (List EndpointCheck)
  pub list_endpoints : String → Result (List EndpointResource)
