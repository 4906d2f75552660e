-- ===== src/Rpc/Serializer.antt =====
-- include/async_toolkit/rpc/serializer.hpp. A text is a list of bytes. The libraries MessagePack, Protocol Buffers and
-- FlatBuffers are a parameter: `none` of `unpack` is an exception.
use async_toolkit.Base.{
  length, leb, if◌then◌else◌, ℕ, zero, suc, ◌≡◌, refl, Bool, true, false, Option, none, some, List,
  [], ◌∷◌,
}

pub data SerializationType : Type 0 where
  json : SerializationType
  protobuf : SerializationType
  msgpack : SerializationType
  flatbuffers : SerializationType

-- The classes that `create_serializer` makes.
pub data Serializer : Type 0 where
  msgpack_serializer : Serializer
  protobuf_serializer : Serializer
  flatbuffers_serializer : Serializer
  json_serializer : Serializer

unfoldable pub create_serializer : SerializationType → Serializer
create_serializer msgpack = msgpack_serializer
create_serializer protobuf = protobuf_serializer
create_serializer flatbuffers = flatbuffers_serializer
create_serializer json = json_serializer

pub record RpcHeader : Type 0 where
  pub service_name : List ℕ
  pub header_size : ℕ
  pub body_size : ℕ
  pub sequence_id : ℕ
  pub timeout_ms : ℕ

-- What the code calls of the libraries. A builder of FlatBuffers is the bytes that it holds.
pub record Libraries : Type 1 where
  pub Object : Type 0
  pub Proto : Type 0
  pub pack : Object → List ℕ
  pub unpack : List ℕ → Option Object
  pub pack_header : RpcHeader → List ℕ
  pub convert_header : Object → RpcHeader → Bool × RpcHeader  -- `false` is an exception
  pub serialize_to_string : Proto → List ℕ
  pub parse_from_string : List ℕ → Bool × Proto
  pub push_flat_buffer : (held bytes : List ℕ) → List ℕ

abbrev pub take : ℕ → List ℕ → List ℕ
take zero bs = []
take (suc n) [] = []
take (suc n) (b ∷ bs) = b ∷ take n bs

-- What a `void*` points to.
pub data Datum (l : Libraries) : Type 0 where
  object : l.Object → Datum l
  proto : l.Proto → Datum l
  bytes : List ℕ → Datum l

-- `serialize` of each class; `none` is a cast of the pointer to what it does not point to, or a
-- read past the end of the bytes.
unfoldable pub serialize : (l : Libraries) → Serializer → Datum l → (size : ℕ) → Option (List ℕ)
serialize l msgpack_serializer (object o) size = some (l.pack o)
serialize l protobuf_serializer (proto p) size = some (l.serialize_to_string p)
serialize l flatbuffers_serializer (bytes bs) size =
    if leb size (length bs) then some (take size bs) else none
serialize l json_serializer d size = some (b'{' ∷ b'}' ∷ [])
serialize l _ _ size = none

-- `deserialize` of each class: its answer, and what `result` points to then.
unfoldable pub deserialize :
    (l : Libraries) → Serializer → List ℕ → (result : Datum l) → Option (Bool × Datum l)
deserialize l msgpack_serializer text (object r) = elim (l.unpack text) [
  | none ↦ some (false, object r)
  | some o ↦ some (true, object o)
]
deserialize l protobuf_serializer text (proto r) =
    let (parsed, message) = l.parse_from_string text in some (parsed, proto message)
deserialize l flatbuffers_serializer text (bytes held) =
    some (true, bytes (l.push_flat_buffer held text))
deserialize l json_serializer text r = some (true, r)
deserialize l _ text _ = none

unfoldable pub serialize_header : (l : Libraries) → RpcHeader → List ℕ
serialize_header l header = l.pack_header header

unfoldable pub deserialize_header : (l : Libraries) → List ℕ → RpcHeader → Bool × RpcHeader
deserialize_header l text header = elim (l.unpack text) [
  | none ↦ (false, header)
  | some o ↦ l.convert_header o header
]

-- The JSON serializer writes the same text for everything, and reads nothing.
pub json_loses :
    (l : Libraries) (d r : Datum l) (size : ℕ) (text : List ℕ)
    → (serialize l (create_serializer json) d size ≡ serialize l (create_serializer json) r size)
      × (deserialize l (create_serializer json) text r ≡ some (true, r))
unfolding serialize deserialize create_serializer
json_loses l d r size text = (refl, refl)
