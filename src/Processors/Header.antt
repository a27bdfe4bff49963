-- ===== src/Processors/Header.antt =====
-- What the processors share: texts of errors, and the setting of a header.
pub mod Laws
use icebreaker.Common.{Text, ◌++◌}
use icebreaker.Errors.{Result, ok, err, Outcome, fine, refused, ◌>>=◌, http_error, config_error}
use icebreaker.Http.{HttpCrate, insert_header}
use icebreaker.Http.Request.{Request}

abbrev pub or_http_error : {A : Type 0} → Text → Outcome A → Result A
or_http_error what (fine a) = ok a
or_http_error what (refused message) = err (http_error (what ++ message))

abbrev pub or_config_error : {A : Type 0} → Text → Outcome A → Result A
or_config_error what (fine a) = ok a
or_config_error what (refused message) = err (config_error (what ++ message))

-- The name and the value are parsed, with these texts before what the parser says, and inserted.
unfoldable pub set_header : ⦃h : HttpCrate⦄ → Text → Text → Text → Text → Request → Result Request
set_header ⦃h⦄ bad_name bad_value name value request = do
  n ← or_config_error bad_name (h.parse_name name)
  v ← or_config_error bad_value (h.parse_value value)
  ok (record request { headers = insert_header n v request.headers })
