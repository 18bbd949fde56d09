-- ===== src/RemoteControl/Objects.antt =====
-- What msgpack packs and unpacks for the remote control client of mcf_py/mcf/remote_control.py, and
-- what its methods read from a response. An array or a float is an opaque `A`, an extmem part an opaque `B`. A
-- frame holds packed objects, or is an extmem part, which is no msgpack data. Every error of msgpack
-- is `value_error`.
use flux_mcf.Prelude.{
  ℕ, String, Bool, true, false, Option, none, some, List, [], ◌∷◌, ◌==◌, string_eq, if◌then◌else◌,
  Result, ok, raise, type_error, key_error, value_error, rc_error, ◌>>=◌,
}

mutual
  pub data Obj (A : Type 0) : Type 0 where
    nil : Obj A
    boolean : Bool → Obj A
    integer : ℕ → Obj A
    text : String → Obj A
    array : A → Obj A
    dict : Fields A → Obj A

  pub data Fields (A : Type 0) : Type 0 where
    end : Fields A
    field : String → Obj A → Fields A → Fields A

pub data Frame (A B : Type 0) : Type 0 where
  objects : List (Obj A) → Frame A B
  raw : B → Frame A B

module _ {A : Type 0} where
  -- of two equal keys the later one counts
  unfoldable pub find : String → Fields A → Option (Obj A)
  find key end = none
  find key (field k v rest) = elim (find key rest) [
    | some w ↦ some w
    | none ↦ if k == key then some v else none
  ]

  -- o[key]
  unfoldable pub item : String → Obj A → Result (Obj A)
  unfolding find
  item key (dict fs) = elim (find key fs) [ none ↦ raise key_error | some v ↦ ok v ]
  item key _ = raise type_error

  abbrev pub is_text : String → Obj A → Bool
  is_text s (text t) = t == s
  is_text s _ = false

  -- `'ERROR: ' + o`
  unfoldable pub append_text : Obj A → Result (Unit {0})
  append_text (text t) = ok tt
  append_text _ = raise type_error

  -- the content of a response, or False with a message for the user
  unfoldable pub content_of : Obj A → Result (Option (Obj A))
  unfolding item append_text
  content_of nil = ok none
  content_of r = do
    kind ← item "type" r
    content ← item "content" r
    if is_text "response" kind then ok (some content) else (do _ ← append_text content; ok none)

  -- check_response
  unfoldable pub check_response : Obj A → Result Bool
  unfolding item append_text
  check_response nil = ok false
  check_response r = do
    kind ← item "type" r
    if is_text "response" kind
        then ok true
        else (do content ← item "content" r; _ ← append_text content; ok false)

  -- `raise RcError('read failed: ' + response['content'])`
  unfoldable pub read_failed : {X : Type 0} → Obj A → Result X
  unfolding item append_text
  read_failed r = do content ← item "content" r; _ ← append_text content; raise rc_error

module _ {A B : Type 0} where
  -- msgpack.unpackb
  unfoldable pub unpackb : Frame A B → Result (Obj A)
  unpackb (objects (o ∷ [])) = ok o
  unpackb _ = raise value_error

  -- the three calls of unpacker.unpack(): id, type name and value
  unfoldable pub unpack_value : Frame A B → Result (Obj A × Obj A × Obj A)
  unpack_value (objects (i ∷ t ∷ v ∷ rest)) = ok (i, t, v)
  unpack_value _ = raise value_error

-- a value that was read, with its id if that was asked for
pub record ReadValue (A B : Type 0) : Type 0 where
  pub id : Option (Obj A)
  pub content : Obj A
  pub typename : Obj A
  pub extmem : Option (Frame A B)

-- `except: raise RcError(...)`
unfoldable pub or_rc_error {ℓ} : {X : Type ℓ} → Result X → Result X
or_rc_error (ok x) = ok x
or_rc_error (raise e) = raise rc_error

-- Whether a text or an array contains 'has_more' is given.
module _ {A : Type 0} (text_has_more : String → Bool) (array_has_more : A → Bool) where
  -- `o['has_more'] if 'has_more' in o else False`
  unfoldable pub has_more_in : Obj A → Result (Obj A)
  unfolding find
  has_more_in (dict fs) = elim (find "has_more" fs) [ none ↦ ok (boolean false) | some v ↦ ok v ]
  has_more_in (text t) = if text_has_more t then raise type_error else ok (boolean false)
  has_more_in (array a) = if array_has_more a then raise type_error else ok (boolean false)
  has_more_in _ = raise type_error

  unfoldable pub more_of : Obj A → Result (Obj A)
  unfolding item has_more_in
  more_of r = do content ← item "content" r; has_more_in content

module _ {A B : Type 0} (text_has_more : String → Bool) (array_has_more : A → Bool) where
  -- the value of a response that has one
  unfoldable pub decode_packed :
      Bool → Frame A B → Option (Frame A B) → Obj A → Result (Option (ReadValue A B) × Obj A)
  unfolding unpack_value more_of
  decode_packed with_id packed extmem r = do
    (i, t, v) ← unpack_value packed
    more ← more_of text_has_more array_has_more r
    ok (
      some (record {
        id = if with_id then some i else none;
        content = v;
        typename = t;
        extmem = extmem;
      }),
      more,
    )

  unfoldable pub decode_response :
      Bool
      → Option (Frame A B)
      → Option (Frame A B)
      → Obj A
      → Result (Option (ReadValue A B) × Obj A)
  unfolding item decode_packed more_of or_rc_error read_failed
  decode_response with_id packed extmem nil = read_failed {A = A} nil
  decode_response with_id packed extmem r = do
    kind ← item "type" r
    if is_text "response" kind
        then elim packed [
          | some p ↦ or_rc_error (decode_packed with_id p extmem r)
          | none ↦ (do more ← more_of text_has_more array_has_more r; ok (none, more))
        ]
        else read_failed r

  -- _decode_value
  unfoldable pub decode_value :
      Option (Frame A B)
      → Option (Frame A B)
      → Bool
      → Frame A B
      → Result (Option (ReadValue A B) × Obj A)
  unfolding unpackb decode_response
  decode_value packed extmem with_id response = do
    r ← unpackb response
    decode_response with_id packed extmem r
