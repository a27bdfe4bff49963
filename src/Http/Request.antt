-- ===== src/Http/Request.antt =====
-- A request on its way through the proxy: its head, and the extensions that the proxy's parts set.
-- Bodies travel beside it.
use icebreaker.Common.{Text, Option, List}
use icebreaker.Http.{Headers}
use icebreaker.ClientAuth.Credentials.{TlsConnectionInfo}
use icebreaker.Token.Payload.{UpstreamScheme}

pub record Request : Type 0 where
  pub method : Text
  pub authority : Option Text
  pub path : Text
  pub query : Option Text
  pub headers : Headers
  pub tls_info : Option TlsConnectionInfo
  pub upstream_scheme : Option UpstreamScheme
  pub scan_patterns : Option (List Text)
