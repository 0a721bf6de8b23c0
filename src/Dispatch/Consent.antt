-- ===== src/Dispatch/Consent.antt =====
-- What leaves the device on a query that is to stay on it.
use nixadmin.Prelude.{string_eq}
use nixadmin.Prelude.Result.{Result}
