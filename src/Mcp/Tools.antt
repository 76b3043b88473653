-- ===== src/Mcp/Tools.antt =====
-- What the MCP server is built from: `build_mcp`. fastmcp, which makes the tools of it, is a parameter.
use nsi_aggregator_proxy.App.{Route}
use nsi_aggregator_proxy.Common.{
  eqb, if◌then◌else◌, Member, String, ◌≡◌, ◌↔◌, Bool, true, not, Option, none, some, List, [], ◌∷◌,
}
use nsi_aggregator_proxy.Models.Formats.{after, many, several, literal, is_match}

pub data McpType : Type 0 where
  tool exclude : McpType

-- Every method and every path, where a map does not say.
pub record RouteMap : Type 0 where
  pub methods : Option (List String)
  pub pattern : Option (String → Bool)
  pub mcp_type : McpType

-- `_LIST_PATTERN`: `^/reservations$`
unfoldable pub list_pattern : String → Bool
unfolding literal
list_pattern path = is_match (literal "/reservations" path)

-- `_DETAIL_PATTERN`: `^/reservations/\{[^}]+\}$`
unfoldable pub detail_pattern : String → Bool
unfolding literal many
detail_pattern path =
    is_match (
      after (after (literal "/reservations/{" path) (several (λ c. not (eqb c b'}'))))
        (literal "}"))

pub record JwtVerifier : Type 0 where
  pub jwks_uri : String
  pub issuer : String
  pub audience : String

-- The settings of the MCP server.
pub record ServerSettings : Type 0 where
  pub proxy_auth_enabled : Bool
  pub mcp_auth_enabled : Bool
  pub verifier : JwtVerifier

pub record FastMcp : Type 0 where
  pub auth : Option JwtVerifier
  pub forwards_identity : Bool
  pub route_maps : List RouteMap

unfoldable pub build_auth : ServerSettings → Option JwtVerifier
build_auth settings = if not settings.mcp_auth_enabled then none else some settings.verifier

unfoldable pub build_mcp : ServerSettings → FastMcp
build_mcp settings = record {
  auth = build_auth settings;
  forwards_identity = settings.proxy_auth_enabled;
  route_maps =
      record { methods = some ("GET" ∷ []); pattern = some detail_pattern; mcp_type = tool }
      ∷ record { methods = some ("GET" ∷ []); pattern = some list_pattern; mcp_type = tool }
      ∷ record { methods = none; pattern = none; mcp_type = exclude }
      ∷ [];
}

-- A map without methods is for every method, and one without a pattern for every path.
abbrev pub HasMethod : Option (List String) → String → Type 0
HasMethod none method = Unit
HasMethod (some methods) method = Member method methods

abbrev pub HasPath : Option (String → Bool) → String → Type 0
HasPath none path = Unit
HasPath (some pattern) path = pattern path ≡ true

abbrev pub Matches : RouteMap → Route → Type 0
Matches m r = HasMethod m.methods r.method × HasPath m.pattern r.path

-- The first map that is for the route says what it becomes.
pub data Becomes : List RouteMap → Route → McpType → Type 0 where
  first :
      {m : RouteMap} {ms : List RouteMap} {r : Route} → Matches m r → Becomes (m ∷ ms) r m.mcp_type
  later :
      {m : RouteMap} {ms : List RouteMap} {r : Route} {t : McpType}
      → ¬ Matches m r
      → Becomes ms r t
      → Becomes (m ∷ ms) r t

-- What is documented of `FastMCP.from_fastapi`, as a function from the maps and the routes of the
-- application to its tools: they are the routes of the schema that become tools.
pub record IsFastMcp (from_fastapi : List RouteMap → List Route → List Route) : Type 0 where
  pub exposed :
      (maps : List RouteMap) (routes : List Route) (r : Route)
      → Member r (from_fastapi maps routes)
        ↔ (Member r routes × (r.include_in_schema ≡ true) × Becomes maps r tool)
