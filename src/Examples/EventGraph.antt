-- ===== src/Examples/EventGraph.antt =====
-- The topics of a trace.
use flux_mcf.Prelude.{String, ◌≡◌, refl, ◌&&◌, ◌==◌, string_eq, true, List, [], ◌∷◌, some, any_of}
use flux_mcf.Prelude.Dict.{lookup, insert}
use flux_mcf.EventGraph.{
  TraceEvent, elem, get_values, get_two_way_topics, extract_comps_info, collect, create_edges,
}
use flux_mcf.EventGraph.Ports.{passes}
use flux_mcf.EventGraph.Topics.{shown_sender, shown_receiver, two_way_topics-events}

abbrev io : String → String → String → TraceEvent
io kind component topic = record {
  kind = kind;
  component = component;
  topic = some topic;
  connected = true;
}

-- "a" is written by one component and read by another, "b" is only peeked at
abbrev trace : List TraceEvent
trace =
    io "port_write" "x" "a"
    ∷ io "port_peek" "y" "b"
    ∷ io "port_read" "y" "a"
    ∷ io "exec_time" "x" "c"
    ∷ io "port_write" "x" "a"
    ∷ []

shown : get_two_way_topics (get_values (extract_comps_info trace)) ("x" ∷ "y" ∷ []) ≡ "a" ∷ []
unfolding get_two_way_topics get_values extract_comps_info collect lookup insert
shown = refl

edges :
    create_edges (λ n. n) (λ n. n) (extract_comps_info trace) ("x" ∷ "y" ∷ []) ("a" ∷ [])
    ≡ record { source = "x"; target = "a" } ∷ record { source = "a"; target = "y" } ∷ []
unfolding create_edges extract_comps_info lookup insert
edges = refl

two_way_topics-events_example :
    elem "a" (get_two_way_topics (get_values (extract_comps_info trace)) ("x" ∷ "y" ∷ [])) ≡ (
      any_of
        (passes (λ name direction t. t == "a" && shown_sender ("x" ∷ "y" ∷ []) name direction))
        trace
      && any_of
          (passes (λ name direction t. t == "a" && shown_receiver ("x" ∷ "y" ∷ []) name direction))
          trace)
two_way_topics-events_example = two_way_topics-events ("x" ∷ "y" ∷ []) trace "a"
