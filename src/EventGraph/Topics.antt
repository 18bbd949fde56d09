-- ===== src/EventGraph/Topics.antt =====
-- The topics that are selected, by the events of the trace.
use flux_mcf.Prelude.{
  String, ◌≡◌, ◌∙◌, refl, sym, ap, ap₂, Bool, true, false, not, ◌||◌, ◌&&◌, Option, none, some,
  List, [], ◌∷◌, ◌++◌, ◌==◌, string_eq, any_of, if◌then◌else◌, Bool-cases, Option-cases, inl, inr,
  arith,
}
use flux_mcf.Prelude.Dict.{Dict, lookup, lookup-insert}
use flux_mcf.Prelude.Dict.Entries.{at_key, any_entry, IsUnique, any_entry_unique, insert-IsUnique}
use flux_mcf.EventGraph.{
  TraceEvent, Port, Component, Visit, add_visit, add_ports, add_components, get_values,
  extract_comps_info, elem, two_way, get_two_way_topics,
}
use flux_mcf.EventGraph.Ports.{or_false, or_assoc, passes, in_components, extract_comps_info-any}

-- A test of the visits of one topic: by component and direction.
module _ (topic : String) (r : String → String → Bool) where
  abbrev visits : Dict String (List Visit) → Bool
  visits d = at_key (any_of (λ v. r v.comp_name v.direction)) (lookup topic d)

  abbrev here : String → String → String → Bool
  here name direction t = t == topic && r name direction

  any_of-end :
      (f : Visit → Bool) (vs : List Visit) (v : Visit)
      → any_of f (vs ++ v ∷ []) ≡ (any_of f vs || f v)
  any_of-end f [] v = or_false (f v)
  any_of-end f (u ∷ vs) v =
      ap (λ b. f u || b) (any_of-end f vs v) ∙ sym (or_assoc (f u) (any_of f vs) (f v))

  visits-add_visit :
      (t : String) (v : Visit) (d : Dict String (List Visit))
      → visits (add_visit t v d) ≡ (visits d || here v.comp_name v.direction t)
  unfolding add_visit
  visits-add_visit t v d = elim (Option-cases (lookup t d)) [
    | inl absent ↦
        rw (absent, add_visit)
          (ap (at_key (any_of (λ u. r u.comp_name u.direction))) (lookup-insert t topic (v ∷ []) d)
            ∙ added (t == topic)
                (λ e. ap (λ k. lookup k d) (sym ((string_eq.beq_iff t topic).0 e)) ∙ absent))
    | inr (vs, there) ↦
        rw (there, add_visit)
          (ap (at_key (any_of (λ u. r u.comp_name u.direction)))
              (lookup-insert t topic (vs ++ v ∷ []) d)
            ∙ grown (t == topic)
                (λ e. ap (λ k. lookup k d) (sym ((string_eq.beq_iff t topic).0 e)) ∙ there))
  ]
    where
      added :
          (b : Bool)
          → (b ≡ true → lookup topic d ≡ none)
          → at_key
              (any_of (λ u. r u.comp_name u.direction))
              (if b then some (v ∷ []) else lookup topic d)
            ≡ (visits d || (b && r v.comp_name v.direction))
      added true h = rw (h refl) (or_false (r v.comp_name v.direction))
      added false h = sym (or_false (visits d))

      grown :
          {vs : List Visit} (b : Bool)
          → (b ≡ true → lookup topic d ≡ some vs)
          → at_key
              (any_of (λ u. r u.comp_name u.direction))
              (if b then some (vs ++ v ∷ []) else lookup topic d)
            ≡ (visits d || (b && r v.comp_name v.direction))
      grown {vs} true h = rw (h refl) (any_of-end (λ u. r u.comp_name u.direction) vs v)
      grown false h = sym (or_false (visits d))

  visits-add_ports :
      (name : String) (ps : List Port) (d : Dict String (List Visit))
      → visits (add_ports name ps d) ≡ (visits d || any_of (λ p. here name p.direction p.topic) ps)
  unfolding add_ports
  visits-add_ports name [] d = sym (or_false (visits d))
  visits-add_ports name (p ∷ ps) d =
      let v : Visit = record {
        comp_name = name;
        connected = p.connected;
        direction = p.direction;
      } in
      visits-add_ports name ps (add_visit p.topic v d)
      ∙ ap (λ b. b || any_of (λ p. here name p.direction p.topic) ps) (visits-add_visit p.topic v d)
      ∙ or_assoc (visits d) (here name p.direction p.topic)
          (any_of (λ p. here name p.direction p.topic) ps)

  visits-add_components :
      (cs : List Component) (d : Dict String (List Visit))
      → visits (add_components cs d) ≡ (visits d || in_components here cs)
  unfolding add_components
  visits-add_components [] d = sym (or_false (visits d))
  visits-add_components (c ∷ cs) d =
      visits-add_components cs (add_ports c.name c.ports d)
      ∙ ap (λ b. b || in_components here cs) (visits-add_ports c.name c.ports d)
      ∙ or_assoc (visits d) (any_of (λ p. here c.name p.direction p.topic) c.ports)
          (in_components here cs)

  -- A visit of the topic passes a test exactly if an event of it does.
  visits-events :
      (es : List TraceEvent) → visits (get_values (extract_comps_info es)) ≡ any_of (passes here) es
  unfolding get_values lookup
  visits-events es =
      visits-add_components (extract_comps_info es) [] ∙ extract_comps_info-any here es

add_visit-IsUnique :
    (t : String) (v : Visit) (d : Dict String (List Visit))
    → IsUnique d
    → IsUnique (add_visit t v d)
unfolding add_visit
add_visit-IsUnique t v d u = elim (Option-cases (lookup t d)) [
  | inl absent ↦ rw (absent, add_visit) (insert-IsUnique t (v ∷ []) d u)
  | inr (vs, there) ↦ rw (there, add_visit) (insert-IsUnique t (vs ++ v ∷ []) d u)
]

add_ports-IsUnique :
    (name : String) (ps : List Port) (d : Dict String (List Visit))
    → IsUnique d
    → IsUnique (add_ports name ps d)
unfolding add_ports
add_ports-IsUnique name [] d u = u
add_ports-IsUnique name (p ∷ ps) d u =
    add_ports-IsUnique name ps _ (add_visit-IsUnique p.topic _ d u)

add_components-IsUnique :
    (cs : List Component) (d : Dict String (List Visit))
    → IsUnique d
    → IsUnique (add_components cs d)
unfolding add_components
add_components-IsUnique [] d u = u
add_components-IsUnique (c ∷ cs) d u =
    add_components-IsUnique cs _ (add_ports-IsUnique c.name c.ports d u)

module _ (comps : List String) where
  -- a component that is shown and sends, or one that does not
  abbrev pub shown_sender : String → String → Bool
  shown_sender name direction = elem name comps && direction == "sender"

  abbrev pub shown_receiver : String → String → Bool
  shown_receiver name direction = elem name comps && not (direction == "sender")

  both_seen :
      (seen sends a b x y rest : Bool)
      → (((a || (seen && sends)) && (b || (seen && not sends))) ≡ false
          → rest ≡ (((a || (seen && sends)) || x) && ((b || (seen && not sends)) || y)))
      → (a && b) ≡ false
      → (if not seen
          then rest
          else if (a || (seen && sends)) && (b || (seen && not sends))
          then true
          else rest)
        ≡ ((a || ((seen && sends) || x)) && (b || ((seen && not sends) || y)))
  both_seen false sends a b x y rest ih h = ih (ground arith) ∙ ground arith
  both_seen true true true true x y rest ih h = absurd (ground arith)
  both_seen true true true false x y rest ih h = ih refl
  both_seen true true false true x y rest ih h = refl
  both_seen true true false false x y rest ih h = ih refl
  both_seen true false true true x y rest ih h = absurd (ground arith)
  both_seen true false true false x y rest ih h = refl
  both_seen true false false true x y rest ih h = ih refl
  both_seen true false false false x y rest ih h = ih refl

  two_way_lem :
      (vs : List Visit) (a b : Bool)
      → (a && b) ≡ false
      → two_way comps a b vs ≡ (
          (a || any_of (λ v. shown_sender v.comp_name v.direction) vs)
          && (b || any_of (λ v. shown_receiver v.comp_name v.direction) vs))
  unfolding two_way
  two_way_lem [] a b h = ground arith
  two_way_lem (v ∷ vs) a b h =
      let seen = elem v.comp_name comps in
      let sends = v.direction == "sender" in
      both_seen seen sends a b _ _ _
        (two_way_lem vs (a || (seen && sends)) (b || (seen && not sends))) h

  elem-two_way_topics :
      (topic : String) (d : Dict String (List Visit))
      → elem topic (get_two_way_topics d comps)
        ≡ any_entry (λ t vs. t == topic && two_way comps false false vs) d
  unfolding get_two_way_topics
  elem-two_way_topics topic [] = refl
  elem-two_way_topics topic ((t, vs) ∷ d) = elim (Bool-cases (two_way comps false false vs)) [
    | inl both ↦ rw both (ground (arith, elem-two_way_topics topic d))
    | inr none_or_one ↦ rw none_or_one (ground (arith, elem-two_way_topics topic d))
  ]

  -- A topic is selected as connected in both ways exactly if some event of the trace is a write of it
  -- by a component that is shown and some event is a read or a peek of it by one that is shown.
  pub two_way_topics-events :
      (es : List TraceEvent) (topic : String)
      → elem topic (get_two_way_topics (get_values (extract_comps_info es)) comps) ≡ (
          any_of (passes (λ name direction t. t == topic && shown_sender name direction)) es
          && any_of (passes (λ name direction t. t == topic && shown_receiver name direction)) es)
  unfolding get_values
  two_way_topics-events es topic =
      let d = get_values (extract_comps_info es) in
      elem-two_way_topics topic d
      ∙ any_entry_unique (two_way comps false false) topic d
          (add_components-IsUnique (extract_comps_info es) [] tt)
      ∙ at_both (lookup topic d)
      ∙ ap₂ ◌&&◌ (visits-events topic shown_sender es) (visits-events topic shown_receiver es)
    where
      at_both :
          (o : Option (List Visit))
          → at_key (two_way comps false false) o ≡ (
              at_key (any_of (λ v. shown_sender v.comp_name v.direction)) o
              && at_key (any_of (λ v. shown_receiver v.comp_name v.direction)) o)
      at_both none = refl
      at_both (some vs) = two_way_lem vs false false refl
