-- ===== src/Processors/Inject/Laws.antt =====
-- What the injection of a header changes.
use icebreaker.Common.{Text, codes, text_eq, ◌≡◌, some, if◌then◌else◌}
use icebreaker.Errors.{ok, fine}
use icebreaker.Http.{HttpCrate, HeaderValue, get}
use icebreaker.Http.Laws.{get-insert_header}
use icebreaker.Http.Request.{Request}
use icebreaker.Token.Config.{InjectConfig, format_value}
use icebreaker.Token.Payload.{TokenPayload}
use icebreaker.Processors.Header.Laws.{set_header-eq-ok}
use icebreaker.Processors.Inject.{process_inject}

-- A request into which a secret was injected has the configured header with the formatted secret
-- as its value, and reads the same at every other name.
pub get-process_inject :
    ⦃h : HttpCrate⦄ (c : InjectConfig) (request r : Request) (payload : TokenPayload) (name : Text)
    → process_inject c request payload ≡ ok r
    → (n : Text) × (v : HeaderValue) × ((h.parse_name c.header_name ≡ fine n)
        × ((h.parse_value (format_value c payload.secret) ≡ fine v)
            × (get name r.headers ≡ (if text_eq n name then some v else get name request.headers))))
unfolding process_inject
get-process_inject ⦃h⦄ c request r payload name k =
    let (n, v, (p, (q, w))) =
      set_header-eq-ok (codes "invalid header name: ") (codes "invalid header value: ")
        c.header_name (format_value c payload.secret) request r k in
    (n, v, (p, (q, rw w (get-insert_header name n v request.headers))))
