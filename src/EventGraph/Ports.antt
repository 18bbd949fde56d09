-- ===== src/EventGraph/Ports.antt =====
-- The ports that extract_comps_info collects from the events.
use flux_mcf.Prelude.{
  String, ◌≡◌, ◌∙◌, refl, sym, ap, subst, Bool, true, false, ◌||◌, ◌&&◌, Option, none, some, List,
  [], ◌∷◌, ◌++◌, string_eq, any_of, Bool-cases, Option-cases, inl, inr, arith,
}
use flux_mcf.Prelude.Dict.{Dict, lookup, insert}
use flux_mcf.Prelude.Dict.Entries.{
  any_entry, at_key, AllEntries, any_entry-insert, any_entry-lookup, AllEntries-insert,
  AllEntries-lookup,
}
use flux_mcf.EventGraph.{
  TraceEvent, Port, Component, PortTree, is_port_event, direction_of, get_dict, add_topic,
  add_event, collect, values, combined, listed, extract_comps_info,
}

pub or_false : (a : Bool) → (a || false) ≡ a
or_false a = ground arith

pub or_assoc : (a b c : Bool) → ((a || b) || c) ≡ (a || (b || c))
or_assoc a b c = ground arith

-- a port that stands where it belongs
abbrev IsPlaced : String → String → Port → Type 0
IsPlaced direction topic p = (p.topic ≡ topic) × (p.direction ≡ direction)

abbrev AllPlaced : String → Dict String (Dict String Port) → Type 0
AllPlaced name d = AllEntries (λ direction. AllEntries (IsPlaced direction)) d

add_topic-IsPlaced :
    (topic : Option String) (connected : Bool) (direction : String) (ports : Dict String Port)
    → AllEntries (IsPlaced direction) ports
    → AllEntries (IsPlaced direction) (add_topic topic connected direction ports)
unfolding add_topic
add_topic-IsPlaced none connected direction ports all = all
add_topic-IsPlaced (some t) connected direction ports all = elim (Option-cases (lookup t ports)) [
  | inl absent ↦
      rw (absent, add_topic) (AllEntries-insert (IsPlaced direction) t _ ports (refl, refl) all)
  | inr (p, there) ↦ rw (there, add_topic) all
]

get_dict-All :
    {V : Type 0} (P : String → Dict String V → Type 0) (key : String)
    (d : Dict String (Dict String V))
    → P key []
    → AllEntries P d
    → P key (get_dict key d)
get_dict-All P key d empty all = elim (Option-cases (lookup key d)) [
  | inl absent ↦ subst (λ o. P key (elim o [ none ↦ [] | some v ↦ v ])) (sym absent) empty
  | inr (v, there) ↦
      subst (λ o. P key (elim o [ none ↦ [] | some v ↦ v ])) (sym there)
        (AllEntries-lookup P key v d all there)
]

add_event-AllPlaced :
    (e : TraceEvent) (tree : PortTree)
    → AllEntries AllPlaced tree
    → AllEntries AllPlaced (add_event e tree)
unfolding add_event
add_event-AllPlaced e tree all = elim (Bool-cases (is_port_event e)) [
  | inl port ↦
      let direction = direction_of e in
      let comp = get_dict e.component tree in
      let comp_all = get_dict-All AllPlaced e.component tree tt all in
      let old_all = get_dict-All (λ d. AllEntries (IsPlaced d)) direction comp tt comp_all in
      let new = add_topic e.topic e.connected direction (get_dict direction comp) in
      let new_all =
        add_topic-IsPlaced e.topic e.connected direction (get_dict direction comp) old_all in
      rw port (
        AllEntries-insert AllPlaced e.component (insert direction new comp) tree
          (AllEntries-insert (λ d. AllEntries (IsPlaced d)) direction new comp new_all comp_all)
          all)
  | inr other ↦ rw other all
]

collect-AllPlaced :
    (es : List TraceEvent) (tree : PortTree)
    → AllEntries AllPlaced tree
    → AllEntries AllPlaced (collect es tree)
unfolding collect
collect-AllPlaced [] tree all = all
collect-AllPlaced (e ∷ es) tree all =
    collect-AllPlaced es (add_event e tree) (add_event-AllPlaced e tree all)

-- A test of ports: by component, direction and topic.
module _ (q : String → String → String → Bool) where
  abbrev in_ports : String → String → Dict String Port → Bool
  in_ports name direction ports = any_entry (λ t p. q name direction t) ports

  abbrev in_directions : String → Dict String (Dict String Port) → Bool
  in_directions name d = any_entry (in_ports name) d

  -- whether some collected port passes
  abbrev in_tree : PortTree → Bool
  in_tree tree = any_entry in_directions tree

  abbrev pub topic_passes : String → String → Option String → Bool
  topic_passes name direction none = false
  topic_passes name direction (some t) = q name direction t

  -- whether the port of an event passes
  abbrev pub passes : TraceEvent → Bool
  passes e = is_port_event e && topic_passes e.component (direction_of e) e.topic

  or_true : (a b : Bool) → (b ≡ true → a ≡ true) → a ≡ (a || b)
  or_true a false h = ground arith
  or_true a true h = h refl ∙ ground arith

  in_ports-add_topic :
      (name direction : String) (topic : Option String) (connected : Bool)
      (ports : Dict String Port)
      → in_ports name direction (add_topic topic connected direction ports)
        ≡ (in_ports name direction ports || topic_passes name direction topic)
  unfolding add_topic
  in_ports-add_topic name direction none connected ports = ground arith
  in_ports-add_topic name direction (some t) connected ports =
      elim (Option-cases (lookup t ports)) [
        | inl absent ↦
            rw (absent, add_topic)
              (any_entry-insert (λ t p. q name direction t) t
                (record { topic = t; connected = connected; direction = direction }) ports
                (q name direction t) (rw absent))
        | inr (p, there) ↦
            rw (there, add_topic)
              (or_true (in_ports name direction ports) (q name direction t)
                (λ h. any_entry-lookup (λ t p. q name direction t) t p ports there h))
      ]

  -- the entry that is taken from a dictionary, or an empty one
  at-default {κ} :
      {D : Type κ} (f : D → Bool) (empty : D) (o : Option D)
      → f empty ≡ false
      → f (elim o [ none ↦ empty | some d ↦ d ]) ≡ at_key f o
  at-default f empty none h = h
  at-default f empty (some d) h = refl

  in_tree-add_event :
      (e : TraceEvent) (tree : PortTree) → in_tree (add_event e tree) ≡ (in_tree tree || passes e)
  unfolding add_event
  in_tree-add_event e tree = elim (Bool-cases (is_port_event e)) [
    | inl port ↦
        let name = e.component in
        let direction = direction_of e in
        let x = topic_passes name direction e.topic in
        let comp = get_dict name tree in
        let old = get_dict direction comp in
        let new = add_topic e.topic e.connected direction old in
        let ports =
          in_ports-add_topic name direction e.topic e.connected old
          ∙ ap (λ b. b || x)
              (at-default (in_ports name direction) [] (lookup direction comp) refl) in
        let directions =
          any_entry-insert (in_ports name) direction new comp x ports
          ∙ ap (λ b. b || x) (at-default (in_directions name) [] (lookup name tree) refl) in
        rw port (any_entry-insert in_directions name (insert direction new comp) tree x directions)
    | inr other ↦ rw other (sym (or_false (in_tree tree)))
  ]

  in_tree-collect :
      (es : List TraceEvent) (tree : PortTree)
      → in_tree (collect es tree) ≡ (in_tree tree || any_of passes es)
  unfolding collect
  in_tree-collect [] tree = sym (or_false (in_tree tree))
  in_tree-collect (e ∷ es) tree =
      in_tree-collect es (add_event e tree)
      ∙ ap (λ b. b || any_of passes es) (in_tree-add_event e tree)
      ∙ or_assoc (in_tree tree) (passes e) (any_of passes es)

  -- the same test of the components that are listed
  abbrev pub in_components : List Component → Bool
  in_components cs = any_of (λ c. any_of (λ p. q c.name p.direction p.topic) c.ports) cs

  pub any_of-append :
      {A : Type 0} (f : A → Bool) (xs ys : List A)
      → any_of f (xs ++ ys) ≡ (any_of f xs || any_of f ys)
  any_of-append f [] ys = refl
  any_of-append f (x ∷ xs) ys =
      ap (λ b. f x || b) (any_of-append f xs ys) ∙ sym (or_assoc (f x) (any_of f xs) (any_of f ys))

  ports-listed :
      (name direction : String) (ports : Dict String Port)
      → AllEntries (IsPlaced direction) ports
      → any_of (λ p. q name p.direction p.topic) (values ports) ≡ in_ports name direction ports
  ports-listed name direction [] all = refl
  ports-listed name direction ((t, p) ∷ ports) ((same_topic, same_direction), all) =
      rw (same_topic, same_direction)
        (ap (λ b. q name direction t || b) (ports-listed name direction ports all))

  directions-listed :
      (name : String) (d : Dict String (Dict String Port))
      → AllEntries (λ direction. AllEntries (IsPlaced direction)) d
      → any_of (λ p. q name p.direction p.topic) (combined d) ≡ in_directions name d
  directions-listed name [] all = refl
  directions-listed name ((direction, ports) ∷ d) (here, all) =
      any_of-append (λ p. q name p.direction p.topic) (values ports) (combined d)
      ∙ ap (λ b. b || any_of (λ p. q name p.direction p.topic) (combined d))
          (ports-listed name direction ports here)
      ∙ ap (λ b. in_ports name direction ports || b) (directions-listed name d all)

  tree-listed :
      (tree : PortTree) → AllEntries AllPlaced tree → in_components (listed tree) ≡ in_tree tree
  tree-listed [] all = refl
  tree-listed ((name, d) ∷ tree) (here, all) =
      ap (λ b. b || in_components (listed tree)) (directions-listed name d here)
      ∙ ap (λ b. in_directions name d || b) (tree-listed tree all)

  -- A listed port passes a test exactly if that of some event does.
  pub extract_comps_info-any :
      (es : List TraceEvent) → in_components (extract_comps_info es) ≡ any_of passes es
  unfolding extract_comps_info
  extract_comps_info-any es =
      tree-listed (collect es []) (collect-AllPlaced es [] tt) ∙ in_tree-collect es []
