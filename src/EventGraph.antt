-- ===== src/EventGraph.antt =====
-- Which topics the components of a recorded trace share: `extract_comps_info`, `get_values` and the
-- filters of topics of mcf_tools/component_tracing/event_graph.py, with the edges and the choice of
-- topics of mcf_tools/component_tracing/node_tree.py. Of a port only what is used is kept.
pub mod Ports
pub mod Topics
use flux_mcf.Prelude.{
  String, Bool, true, false, not, ◌||◌, ◌&&◌, Option, none, some, List, [], ◌∷◌, ◌++◌, map, ◌==◌,
  string_eq, any_of, if◌then◌else◌,
}
use flux_mcf.Prelude.Dict.{Dict, lookup, insert}

-- an event, as parse_mcf_event gives it
pub record TraceEvent : Type 0 where
  pub kind : String
  pub component : String
  pub topic : Option String
  pub connected : Bool

pub record Port : Type 0 where
  pub topic : String
  pub connected : Bool
  pub direction : String

pub record Component : Type 0 where
  pub name : String
  pub ports : List Port

-- a component at a topic
pub record Visit : Type 0 where
  pub comp_name : String
  pub connected : Bool
  pub direction : String

-- components, then directions, then topics
abbrev pub PortTree : Type 0
PortTree = Dict String (Dict String (Dict String Port))

abbrev pub is_port_event : TraceEvent → Bool
is_port_event e = e.kind == "port_peek" || e.kind == "port_read" || e.kind == "port_write"

abbrev pub direction_of : TraceEvent → String
direction_of e = if e.kind == "port_write" then "sender" else "receiver"

-- d.get(key, {})
abbrev pub get_dict {ℓ} : {V : Type ℓ} → String → Dict String (Dict String V) → Dict String V
get_dict key d = elim (lookup key d) [ none ↦ [] | some v ↦ v ]

-- at most one port for each topic
unfoldable pub add_topic : Option String → Bool → String → Dict String Port → Dict String Port
add_topic none connected direction ports = ports
add_topic (some t) connected direction ports = elim (lookup t ports) [
  | some p ↦ ports
  | none ↦ insert t (record { topic = t; connected = connected; direction = direction }) ports
]

-- one pass of the first loop of extract_comps_info
unfoldable pub add_event : TraceEvent → PortTree → PortTree
unfolding add_topic
add_event e tree =
    let direction = direction_of e in
    let comp_ports = get_dict e.component tree in
    let ports = add_topic e.topic e.connected direction (get_dict direction comp_ports) in
    if not (is_port_event e)
    then tree
    else insert e.component (insert direction ports comp_ports) tree

unfoldable pub collect : List TraceEvent → PortTree → PortTree
unfolding add_event
collect [] tree = tree
collect (e ∷ es) tree = collect es (add_event e tree)

-- the values of a dictionary
abbrev pub values {ℓ} : {V : Type ℓ} → Dict String V → List V
values [] = []
values ((k, v) ∷ d) = v ∷ values d

abbrev pub combined : Dict String (Dict String Port) → List Port
combined [] = []
combined ((direction, ports) ∷ d) = values ports ++ combined d

-- the second loop of extract_comps_info
abbrev pub listed : PortTree → List Component
listed [] = []
listed ((name, d) ∷ tree) = record { name = name; ports = combined d } ∷ listed tree

unfoldable pub extract_comps_info : List TraceEvent → List Component
unfolding collect
extract_comps_info es = listed (collect es [])

unfoldable pub add_visit : String → Visit → Dict String (List Visit) → Dict String (List Visit)
add_visit topic v d = elim (lookup topic d) [
  | none ↦ insert topic (v ∷ []) d
  | some vs ↦ insert topic (vs ++ v ∷ []) d
]

unfoldable pub add_ports : String → List Port → Dict String (List Visit) → Dict String (List Visit)
unfolding add_visit
add_ports name [] d = d
add_ports name (p ∷ ps) d = add_ports name ps (
    add_visit p.topic
      (record { comp_name = name; connected = p.connected; direction = p.direction }) d)

unfoldable pub add_components : List Component → Dict String (List Visit) → Dict String (List Visit)
unfolding add_ports
add_components [] d = d
add_components (c ∷ cs) d = add_components cs (add_ports c.name c.ports d)

unfoldable pub get_values : List Component → Dict String (List Visit)
unfolding add_components
get_values comps_info = add_components comps_info []

-- x in l
abbrev pub elem : String → List String → Bool
elem x l = any_of (λ y. y == x) l

unfoldable pub get_connected_topics : Dict String (List Visit) → List String → List String
get_connected_topics [] comps = []
get_connected_topics ((topic, vs) ∷ d) comps =
    if any_of (λ v. elem v.comp_name comps) vs
    then topic ∷ get_connected_topics d comps
    else get_connected_topics d comps

-- the inner loop of get_two_way_topics: whether it appends the topic
unfoldable pub two_way : List String → Bool → Bool → List Visit → Bool
two_way comps has_sender has_receiver [] = false
two_way comps has_sender has_receiver (v ∷ vs) =
    let seen = elem v.comp_name comps in
    let sends = v.direction == "sender" in
    let has_sender' = has_sender || (seen && sends) in
    let has_receiver' = has_receiver || (seen && not sends) in
    let rest = two_way comps has_sender' has_receiver' vs in
    if not seen then rest else if has_sender' && has_receiver' then true else rest

unfoldable pub get_two_way_topics : Dict String (List Visit) → List String → List String
unfolding two_way
get_two_way_topics [] comps = []
get_two_way_topics ((topic, vs) ∷ d) comps =
    if two_way comps false false vs
    then topic ∷ get_two_way_topics d comps
    else get_two_way_topics d comps

-- the topics that update_graph of the node tree shows
unfoldable pub filter_values : List String → List Component → List String → List String
unfolding get_two_way_topics get_connected_topics get_values
filter_values value_selector comps_info comps =
    let d = get_values comps_info in
    if elem "TWO_WAY_ONLY" value_selector
    then get_two_way_topics d comps
    else if elem "SHOW_UNCONNECTED" value_selector
    then map (λ x. x.0) d
    else get_connected_topics d comps

pub record Edge : Type 0 where
  pub source : String
  pub target : String

-- create_edges of the node tree; "comp_" and "value_" are put before the names by `comp_id` and
-- `value_id`
module _ (comp_id value_id : String → String) where
  unfoldable pub port_edges : String → List Port → List String → List Edge
  port_edges name [] topics = []
  port_edges name (p ∷ ps) topics =
      if not (elem p.topic topics) || not p.connected
      then port_edges name ps topics
      else (if p.direction == "sender"
          then record { source = comp_id name; target = value_id p.topic }
          else record { source = value_id p.topic; target = comp_id name })
        ∷ port_edges name ps topics

  unfoldable pub create_edges : List Component → List String → List String → List Edge
  unfolding port_edges
  create_edges [] comps topics = []
  create_edges (c ∷ cs) comps topics =
      if not (elem c.name comps)
      then create_edges cs comps topics
      else port_edges c.name c.ports topics ++ create_edges cs comps topics
