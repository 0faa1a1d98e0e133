-- ===== src/Router/Tests.antt =====
-- Instances of the router's laws.
use servd.Base.{[]}
use servd.Result.{ok}
use servd.Context.{Handler}

abbrev echo : Handler
echo ctx = ([], ok (record { flags = 0; payload = ctx.payload }))
