-- ===== src/Replay/Schema.antt =====
-- What pkg/replay/diff.go reads of package protoreflect: descriptors, and messages decoded by them.
use diverge.Base.{ℕ, Bool, List, Option, Text, Result}
use diverge.Base.Int.{ℤ}

-- protoreflect.Kind; the kinds that the code does not single out have their name.
pub data ProtoKind : Type 0 where
  message_kind enum_kind string_kind bytes_kind : ProtoKind
  other_kind : Text → ProtoKind

-- The part of a FieldDescriptor that the keys and values of a map have too: `full_name` is that of
-- Message() or Enum(), and `enum_name` the name in Enum().Values().ByNumber.
pub record ElementDescriptor : Type 0 where
  pub kind : ProtoKind
  pub number : ℕ
  pub full_name : Text
  pub enum_name : ℤ → Option Text

pub record FieldDescriptor : Type 0 where
  pub name : Text
  pub element : ElementDescriptor
  pub is_list : Bool
  pub is_map : Bool
  pub map_key : ElementDescriptor
  pub map_value : ElementDescriptor

-- What String, Bytes and Enum return of a protoreflect.Value that holds no message.
pub record ProtoScalar : Type 0 where
  pub string : Text
  pub bytes : Text
  pub enum : ℤ

-- protoreflect.Message: the fields of its descriptor, what it has by field number, and the unknown
-- fields as they were encoded. A field is a list or a map exactly if IsList or IsMap says so, and a
-- value is nested exactly if its Kind is MessageKind. The
-- keys of a map stand for their String; of several entries under one number or key the first counts.
mutual
  pub data ProtoMessage : Type 0 where
    message : List FieldDescriptor → Slots → Text → ProtoMessage

  pub data Slots : Type 0 where
    no_slots : Slots
    slot : ℕ → Content → Slots → Slots

  pub data Content : Type 0 where
    one : ProtoValue → Content
    many : ProtoValues → Content
    mapping : Entries → Content

  pub data ProtoValue : Type 0 where
    scalar : ProtoScalar → ProtoValue
    nested : ProtoMessage → ProtoValue

  pub data ProtoValues : Type 0 where
    no_values : ProtoValues
    value : ProtoValue → ProtoValues → ProtoValues

  pub data Entries : Type 0 where
    no_entries : Entries
    entry : Text → ProtoValue → Entries → Entries

-- What a name stands for in a protoregistry.Files: the descriptor of a message, by what proto.Unmarshal
-- does with it on a new dynamicpb message, or another one.
pub data Descriptor : Type 0 where
  message_descriptor : (Text → Result Text ProtoMessage) → Descriptor
  other_descriptor : Descriptor

-- protoregistry.Files, by FindDescriptorByName.
pub record ProtoFiles : Type 0 where
  pub find_descriptor_by_name : Text → Result Text Descriptor
