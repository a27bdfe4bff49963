-- ===== src/Processors/Inject.antt =====
-- crates/icebreaker-proxy/src/processor/inject.rs
pub mod Laws
use icebreaker.Common.{codes}
use icebreaker.Errors.{Result}
use icebreaker.Http.{HttpCrate}
use icebreaker.Http.Request.{Request}
use icebreaker.Token.Config.{InjectConfig, format_value}
use icebreaker.Token.Payload.{TokenPayload}
use icebreaker.Processors.Header.{set_header}

unfoldable pub process_inject :
    ⦃h : HttpCrate⦄ → InjectConfig → Request → TokenPayload → Result Request
unfolding set_header format_value
process_inject c request payload =
    set_header (codes "invalid header name: ") (codes "invalid header value: ") c.header_name
      (format_value c payload.secret) request
