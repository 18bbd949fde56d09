-- ===== src/Tracing/Messages.antt =====
-- mcf_py/mcf_core/component_trace_messages.py. An object is its class and its attributes, in the
-- order of the dataclass fields, those of the base class first. Floats are of any type `F`.
pub mod RoundTrip
use flux_mcf.Prelude.{
  ℕ, zero, suc, String, Bool, true, false, not, Option, none, some, List, [], ◌∷◌, length, any_of,
  nat_beq, ltb, ◌==◌, string_eq, if◌then◌else◌, Result, ok, raise, type_error, key_error,
  value_error, ◌>>=◌,
}

-- the classes that are not abstract
pub data MessageClass : Type 0 where
  port_descriptor trigger_descriptor : MessageClass
  port_write port_peek port_read : MessageClass
  exec_time port_trigger_activation port_trigger_exec : MessageClass

pub data ℤ : Type 0 where
  pos negsuc : ℕ → ℤ

-- What an attribute holds. A list that msgpack delivered is `items`.
mutual
  pub data Datum (F : Type 0) : Type 0 where
    nothing : Datum F
    text : String → Datum F
    number : ℤ → Datum F
    flag : Bool → Datum F
    real : F → Datum F
    items : Data F → Datum F
    object : MessageClass → Attributes F → Datum F

  pub data Data (F : Type 0) : Type 0 where
    nil : Data F
    cons : Datum F → Data F → Data F

  pub data Attributes (F : Type 0) : Type 0 where
    end : Attributes F
    attribute : String → Datum F → Attributes F → Attributes F

-- What stands for `array[0]`: nothing, in a dictionary without the key 0, something that has no
-- length, or the items of something that has one.
pub data Content (F : Type 0) : Type 0 where
  absent without_length : Content F
  sized : Data F → Content F

-- What _unpack is given: None, something else that has no length, something with fewer than two
-- entries, a dictionary without the key 1, or the first two entries, of which the second may be no
-- string.
pub data Packed (F : Type 0) : Type 0 where
  missing scalar short without_typeid : Packed F
  received : Content F → Option String → Packed F

-- a list of values and a type id
abbrev pub packed : {F : Type 0} → Data F → String → Packed F
packed vs id = received (sized vs) (some id)

unfoldable pub typeid : MessageClass → String
typeid port_descriptor = "mcf::PortDescriptor"
typeid trigger_descriptor = "mcf::TriggerDescriptor"
typeid port_write = "mcf::ComponentTracePortWrite"
typeid port_peek = "mcf::ComponentTracePortPeek"
typeid port_read = "mcf::ComponentTracePortRead"
typeid exec_time = "mcf::ComponentTraceExecTime"
typeid port_trigger_activation = "mcf::ComponentTracePortTriggerActivation"
typeid port_trigger_exec = "mcf::ComponentTracePortTriggerExec"

unfoldable pub field_names : MessageClass → List String
field_names port_descriptor = "name" ∷ "topic" ∷ "connected" ∷ []
field_names trigger_descriptor = "topic" ∷ "time" ∷ "hello" ∷ []
field_names port_write =
    "traceId" ∷ "time" ∷ "componentName" ∷ "portDescriptor" ∷ "valueId" ∷ "inputValueIds"
    ∷ "threadId" ∷ "cpuId" ∷ []
field_names port_peek =
    "traceId" ∷ "time" ∷ "componentName" ∷ "portDescriptor" ∷ "valueId" ∷ "threadId" ∷ "cpuId" ∷ []
field_names port_read =
    "traceId" ∷ "time" ∷ "componentName" ∷ "portDescriptor" ∷ "valueId" ∷ "threadId" ∷ "cpuId" ∷ []
field_names exec_time =
    "traceId" ∷ "time" ∷ "componentName" ∷ "description" ∷ "executionTime" ∷ "threadId" ∷ "cpuId"
    ∷ []
field_names port_trigger_activation =
    "traceId" ∷ "time" ∷ "componentName" ∷ "triggerDescriptor" ∷ "threadId" ∷ "cpuId" ∷ []
field_names port_trigger_exec =
    "traceId" ∷ "time" ∷ "componentName" ∷ "triggerDescriptor" ∷ "handlerName" ∷ "executionTime"
    ∷ "threadId" ∷ "cpuId" ∷ []

-- `zero_time` is the float 0.0.
module _ {F : Type 0} where
  -- the fields of ComponentTraceEvent, before those of a subclass
  abbrev pub event_fields : Attributes F → Attributes F
  event_fields rest = attribute "traceId" (text "") (
      attribute "time" (number (pos 0)) (
        attribute "componentName" (text "")
          (attribute "threadId" (number (pos 0)) (attribute "cpuId" (number (pos 0)) rest))))

  abbrev pub port_fields : String → String → Bool → Attributes F
  port_fields name topic connected =
      attribute "name" (text name)
        (attribute "topic" (text topic) (attribute "connected" (flag connected) end))

  -- the dataclass fields with their defaults
  unfoldable pub dataclass_fields : F → MessageClass → Attributes F
  dataclass_fields zero_time port_descriptor = port_fields "" "" false
  dataclass_fields zero_time trigger_descriptor = attribute "topic" (text "") (
      attribute "time" (number (pos 0))
        (attribute "hello" (object port_descriptor (port_fields "a" "b" false)) end))
  dataclass_fields zero_time port_write = event_fields (
      attribute "portDescriptor" nothing
        (attribute "valueId" (number (pos 0)) (attribute "inputValueIds" (items nil) end)))
  dataclass_fields zero_time port_peek =
      event_fields (attribute "portDescriptor" nothing (attribute "valueId" (number (pos 0)) end))
  dataclass_fields zero_time port_read =
      event_fields (attribute "portDescriptor" nothing (attribute "valueId" (number (pos 0)) end))
  dataclass_fields zero_time exec_time =
      event_fields
        (attribute "description" (text "") (attribute "executionTime" (real zero_time) end))
  dataclass_fields zero_time port_trigger_activation =
      event_fields (attribute "triggerDescriptor" nothing end)
  dataclass_fields zero_time port_trigger_exec = event_fields (
      attribute "triggerDescriptor" nothing
        (attribute "handlerName" (text "") (attribute "executionTime" (real zero_time) end)))

  -- the entry of a name in a dictionary of fields
  unfoldable pub get : String → Attributes F → Option (Datum F)
  get k end = none
  get k (attribute j v rest) = if j == k then some v else get k rest

  -- `obj.name = value` of an attribute that is there
  unfoldable pub put : String → Datum F → Attributes F → Attributes F
  put k v end = end
  put k v (attribute j w rest) = if j == k then attribute j v rest else attribute j w (put k v rest)

  abbrev pub data_length : Data F → ℕ
  data_length nil = 0
  data_length (cons d ds) = suc (data_length ds)

  -- `[field_dict[fld] for fld in flds]`
  unfoldable pub values_of : List String → Attributes F → Result (Data F)
  values_of [] fields = ok nil
  values_of (k ∷ ks) fields = elim (get k fields) [
    | none ↦ raise key_error
    | some v ↦ (do vs ← values_of ks fields; ok (cons v vs))
  ]

  -- `serialize` gives the values and the type id.
  unfoldable pub serialize : MessageClass → Attributes F → Result (Data F × String)
  unfolding values_of
  serialize cls fields = do vs ← values_of (field_names cls) fields; ok (vs, typeid cls)

  -- `{fld: val for fld, val in zip(flds, array[0])}`, for names without repetition
  unfoldable pub zip_fields : List String → Data F → Attributes F
  zip_fields [] vs = end
  zip_fields (k ∷ ks) nil = end
  zip_fields (k ∷ ks) (cons v vs) = attribute k v (zip_fields ks vs)

  unfoldable pub all_known : Attributes F → Attributes F → Bool
  all_known fields end = true
  all_known fields (attribute k v rest) = elim (get k fields) [
    | none ↦ false
    | some w ↦ all_known fields rest
  ]

  unfoldable pub filled : Attributes F → Attributes F → Attributes F
  filled end kwargs = end
  filled (attribute k default rest) kwargs =
      attribute k (elim (get k kwargs) [ none ↦ default | some v ↦ v ]) (filled rest kwargs)

  -- `clazz(**field_dict)`: an unknown keyword is a TypeError
  unfoldable pub construct : F → MessageClass → Attributes F → Result (Attributes F)
  unfolding all_known filled
  construct zero_time cls kwargs =
      if all_known (dataclass_fields zero_time cls) kwargs
      then ok (filled (dataclass_fields zero_time cls) kwargs)
      else raise type_error

  unfoldable pub unpack : F → MessageClass → Packed F → Result (Attributes F)
  unfolding construct zip_fields
  unpack zero_time cls missing = raise value_error
  unpack zero_time cls scalar = raise type_error
  unpack zero_time cls short = raise value_error
  unpack zero_time cls without_typeid = raise key_error
  unpack zero_time cls (received content none) = raise value_error
  unpack zero_time cls (received absent (some id)) =
      if not (id == typeid cls) then raise value_error else raise key_error
  unpack zero_time cls (received without_length (some id)) =
      if not (id == typeid cls) then raise value_error else raise type_error
  unpack zero_time cls (received (sized vs) (some id)) =
      if not (id == typeid cls)
      then raise value_error
      else if not (nat_beq (data_length vs) (length (field_names cls)))
      then raise value_error
      else construct zero_time cls (zip_fields (field_names cls) vs)
