-- ===== src/Physical/RoundTrip.antt =====
-- What survives the writing and reading of physical plans.
use ballista.Text.{Text}
use ballista.Error.{◌>>=◌}
use ballista.Proto
