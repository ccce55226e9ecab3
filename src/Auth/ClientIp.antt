-- ===== src/Auth/ClientIp.antt =====
-- packages/nextjs/services/auth/rateLimit.ts, clientIpFrom.
use zk_voting.Prelude.{Option, none, some, [], ◌∷◌, ◌==◌, if◌then◌else◌}
use zk_voting.Prelude.Text.{Text, codes, trim}

-- `s.split(",")[0]`
unfoldable pub before_comma : Text → Text
before_comma [] = []
before_comma (c ∷ s) = let rest = before_comma s in if c == b',' then [] else c ∷ rest

abbrev pub or_unknown : Text → Text
or_unknown [] = codes "unknown"
or_unknown (c ∷ s) = c ∷ s

abbrev pub real_ip : Option Text → Text
real_ip none = codes "unknown"
real_ip (some s) = or_unknown (trim s)

-- `clientIpFrom(headers)`, of the headers x-forwarded-for and x-real-ip
unfoldable pub client_ip_from : Option Text → Option Text → Text
unfolding before_comma trim
client_ip_from none real = real_ip real
client_ip_from (some []) real = real_ip real
client_ip_from (some (c ∷ s)) real = trim (before_comma (c ∷ s))
