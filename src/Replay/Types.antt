-- ===== src/Replay/Types.antt =====
-- The types of pkg/replay/diff.go, and what it uses of Go's library and of protowire.
use diverge.Base.{ℕ, Bool, List, Option, Text, Result}
use diverge.Replay.Schema.{ProtoFiles}

-- What encoding/json decodes to `any` with UseNumber. A map[string]any is a list of entries, of
-- which the first with a key counts.
mutual
  pub data Json : Type 0 where
    null : Json
    boolean : Bool → Json
    number : Text → Json
    string : Text → Json
    array : Items → Json
    object : Fields → Json

  pub data Items : Type 0 where
    nil : Items
    item : Json → Items → Items

  pub data Fields : Type 0 where
    empty : Fields
    field : Text → Json → Fields → Fields

pub record ContractDiff : Type 0 where
  pub path : Text
  pub kind : Text
  pub baseline : Text
  pub preview : Text
  pub breaking : Bool

pub record DiffOptions : Type 0 where
  pub compare_values : Bool
  pub fail_on_extra_fields : Bool
  pub ignore_fields : List Text
  pub proto_files : Option ProtoFiles
  pub proto_message : Text

-- What follows the first JSON value of an input: nothing, another value, or an error.
pub data Trailing : Type 0 where
  end_of_input : Trailing
  another_value : Trailing
  malformed : Text → Trailing

-- Packages bytes, strings, strconv, unicode/utf8 and encoding/json.
pub record Std : Type 0 where
  pub trim_space : Text → Text
  pub to_lower : Text → Text
  pub equal_fold : Text → Text → Bool
  pub quote : Text → Text
  pub utf8_valid : Text → Bool
  pub runes : Text → List ℕ
  pub decode_json : Text → Result Text (Json × Trailing)
  pub decode_end_stream : Text → Result Text (Option (Text × Text))
