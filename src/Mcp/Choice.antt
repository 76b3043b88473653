-- ===== src/Mcp/Choice.antt =====
-- The choice of a route map, decided.
use mathlib.Core.Path.{subst}
use nsi_aggregator_proxy.App.{Route}
use nsi_aggregator_proxy.Common.{
  if◌then◌else◌, Bool-cases, ◌==◌, any, keep, Member, Member-keep, keep-Member, String, ◌≡◌, refl,
  sym, ap, ◌↔◌, inl, inr, Bool, true, false, ◌&&◌, Option, none, some, List, [], ◌∷◌, eq_iff,
}
use nsi_aggregator_proxy.Mcp.Tools.{
  McpType, tool, exclude, RouteMap, HasMethod, HasPath, Matches, Becomes, first, later, IsFastMcp,
}

abbrev has_method : Option (List String) → String → Bool
has_method none method = true
has_method (some methods) method = any (λ m. m == method) methods

abbrev has_path : Option (String → Bool) → String → Bool
has_path none path = true
has_path (some pattern) path = pattern path

abbrev is_match : RouteMap → Route → Bool
is_match m r = has_method m.methods r.method && has_path m.pattern r.path

any_iff :
    (method : String) (methods : List String)
    → (any (λ m. m == method) methods ≡ true) ↔ Member method methods
any_iff method [] = ((λ h. cc (h)), (λ m. elim m [ ]))
any_iff method (x ∷ xs) =
    let rest = any_iff method xs in
    elim (Bool-cases (x == method)) [
      | inl hit ↦ rw hit ((λ h. inl (sym ((eq_iff x method).0 hit))), (λ m. refl))
      | inr missed ↦ rw missed (
        (λ h. inr (rest.0 h)),
        (λ m. elim m [
          | inl same ↦ cc (missed, (eq_iff x method).1 (sym same))
          | inr other ↦ rest.1 other
        ]),
      )
    ]

has_method_iff :
    (o : Option (List String)) (method : String) → (has_method o method ≡ true) ↔ HasMethod o method
has_method_iff none method = ((λ h. tt), (λ h. refl))
has_method_iff (some methods) method = any_iff method methods

has_path_iff :
    (o : Option (String → Bool)) (path : String) → (has_path o path ≡ true) ↔ HasPath o path
has_path_iff none path = ((λ h. tt), (λ h. refl))
has_path_iff (some pattern) path = ((λ h. h), (λ h. h))

is_match_iff : (m : RouteMap) (r : Route) → (is_match m r ≡ true) ↔ Matches m r
is_match_iff m r =
    let method = has_method_iff m.methods r.method in
    let path = has_path_iff m.pattern r.path in
    (
      (λ h. elim (Bool-cases (has_method m.methods r.method)) [
        | inl hit ↦ (method.0 hit, path.0 (rw hit at h))
        | inr miss ↦ cc (rw miss at h)
      ]),
      (λ h. rw (method.1 h.0) (path.1 h.1)),
    )

-- What the route becomes; a route without a map is no tool.
abbrev pub type_of : List RouteMap → Route → McpType
type_of [] r = exclude
type_of (m ∷ ms) r = let rest = type_of ms r in if is_match m r then m.mcp_type else rest

pub type_of-Becomes :
    {maps : List RouteMap} {r : Route} {t : McpType} → Becomes maps r t → type_of maps r ≡ t
type_of-Becomes (first {m} {ms} {r} fits) = rw ((is_match_iff m r).1 fits) refl
type_of-Becomes (later {m} {ms} {r} {t} unfit rest) = elim (Bool-cases (is_match m r)) [
  | inl hit ↦ elim (unfit ((is_match_iff m r).0 hit)) [ ]
  | inr miss ↦ rw miss (type_of-Becomes rest)
]

pub Becomes-type_of :
    (maps : List RouteMap) (r : Route) → type_of maps r ≡ tool → Becomes maps r tool
Becomes-type_of [] r e = cc (e)
Becomes-type_of (m ∷ ms) r e = elim (Bool-cases (is_match m r)) [
  | inl hit ↦
      let same : m.mcp_type ≡ tool = rw hit at e in
      subst (Becomes (m ∷ ms) r) same (first ((is_match_iff m r).0 hit))
  | inr miss ↦
      later (λ fits. cc (miss, (is_match_iff m r).1 fits)) (Becomes-type_of ms r (rw miss at e))
]

abbrev is_tool : McpType → Bool
is_tool tool = true
is_tool exclude = false

is_tool_lem : (t : McpType) → is_tool t ≡ true → t ≡ tool
is_tool_lem tool h = refl
is_tool_lem exclude h = cc (h)

and_iff : (a b : Bool) → ((a && b) ≡ true) ↔ ((a ≡ true) × (b ≡ true))
and_iff true b = ((λ h. (refl, h)), (λ h. h.1))
and_iff false b = ((λ h. cc (h)), (λ h. cc (h.0)))

-- A function that does what is documented.
abbrev pub chosen : List RouteMap → List Route → List Route
chosen maps = keep (λ r. r.include_in_schema && is_tool (type_of maps r))

pub chosen-IsFastMcp : IsFastMcp chosen
chosen-IsFastMcp = record {
  exposed = λ maps routes r. (
    (λ m.
        let (listed, kept) =
          keep-Member (λ x. x.include_in_schema && is_tool (type_of maps x)) r routes m in
        let both = (and_iff r.include_in_schema (is_tool (type_of maps r))).0 kept in
        (listed, both.0, Becomes-type_of maps r (is_tool_lem _ both.1))),
    (λ (listed, shown, becomes).
        Member-keep (λ x. x.include_in_schema && is_tool (type_of maps x)) r routes listed
          ((and_iff r.include_in_schema (is_tool (type_of maps r))).1
            (shown, ap is_tool (type_of-Becomes becomes)))),
  );
}
