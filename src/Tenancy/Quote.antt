-- ===== src/Tenancy/Quote.antt =====
-- `sqlQuoteLiteral` of fx/stdcrpcenttenancyfx/stdcrpcenttenancyfx.go, and a reader of string literals
-- as PostgreSQL defines them: a quote, characters with each quote doubled, and a quote.
pub mod Roundtrip
use Prim.Native.Char.{Char, code}
use Prim.Native.String
use Prim.Native.String.{String}
use stdgo.Base.{◌==◌, if◌then◌else◌}

-- `strings.ReplaceAll(s, "'", "''")`
unfoldable pub double_quotes : String → String
double_quotes String.[] = ""
double_quotes (String.◌∷◌ c s) =
    let rest = double_quotes s in
    if code c == 39 then String.◌∷◌ c (String.◌∷◌ c rest) else String.◌∷◌ c rest

unfoldable pub sql_quote_literal : String → String
unfolding double_quotes
sql_quote_literal s = String.◌++◌ "'" (String.◌++◌ (double_quotes s) "'")

-- ``fmt.Fprintf(sqlb, `SELECT set_config(%s, %s, true); `, …)``
unfoldable pub set_config_sql : String → String → String
set_config_sql name v = String.◌++◌ "SELECT set_config(" (
    String.◌++◌ (sql_quote_literal name)
      (String.◌++◌ ", " (String.◌++◌ (sql_quote_literal v) ", true); ")))
