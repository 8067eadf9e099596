-- ===== src/Replay/Media.antt =====
-- The media types of pkg/replay/diff.go.
use diverge.Base.{
  ℕ, Bool, false, not, ◌&&◌, ◌||◌, List, [], ◌∷◌, Text, codes, text_eq, has_prefix, ◌==◌,
  if◌then◌else◌,
}
use diverge.Topology.Sets.{has}
use diverge.Replay.Types.{Std}

-- strings.HasSuffix
unfoldable pub has_suffix : Text → Text → Bool
has_suffix [] p = text_eq [] p
has_suffix (c ∷ s) p = text_eq (c ∷ s) p || has_suffix s p

-- `s[:strings.IndexByte(s, c)]`, and `s` where the byte does not occur.
unfoldable pub before : Text → ℕ → Text
before [] c = []
before (d ∷ s) c = let rest = before s c in if d == c then [] else d ∷ rest

unfoldable pub holds_byte : Text → ℕ → Bool
holds_byte [] c = false
holds_byte (d ∷ s) c = d == c || holds_byte s c

abbrev pub framed_proto_types : List Text
framed_proto_types =
    codes "application/grpc"
    ∷ codes "application/grpc+proto"
    ∷ codes "application/grpc-web"
    ∷ codes "application/grpc-web+proto"
    ∷ codes "application/connect+proto"
    ∷ []

abbrev pub proto_types : List Text
proto_types =
    codes "application/proto"
    ∷ codes "application/x-protobuf"
    ∷ codes "application/protobuf"
    ∷ codes "application/vnd.google.protobuf"
    ∷ framed_proto_types

abbrev pub framed_json_types : List Text
framed_json_types =
    codes "application/connect+json"
    ∷ codes "application/grpc-web+json"
    ∷ codes "application/grpc+json"
    ∷ []

module _ (std : Std) where
  open std use {trim_space, to_lower}

  unfoldable pub normalize_media_type : Text → Text
  unfolding before holds_byte
  normalize_media_type content_type =
      let raw = to_lower (trim_space content_type) in
      if holds_byte raw b';' then trim_space (before raw b';') else raw

  unfoldable pub is_protobuf_content_type : Text → Bool
  unfolding normalize_media_type has_suffix
  is_protobuf_content_type content_type =
      let media_type = normalize_media_type content_type in
      has proto_types media_type
      || has_suffix media_type (codes "+proto")
      || has_suffix media_type (codes "+protobuf")

  unfoldable pub is_framed_proto_content_type : Text → Bool
  unfolding normalize_media_type
  is_framed_proto_content_type content_type =
      has framed_proto_types (normalize_media_type content_type)

  unfoldable pub is_json_content_type : Text → Bool
  unfolding normalize_media_type has_suffix
  is_json_content_type content_type =
      let media_type = normalize_media_type content_type in
      text_eq media_type (codes "application/json")
      || text_eq media_type (codes "text/json")
      || has_suffix media_type (codes "+json")

  unfoldable pub is_framed_json_content_type : Text → Bool
  unfolding normalize_media_type
  is_framed_json_content_type content_type =
      has framed_json_types (normalize_media_type content_type)

  unfoldable pub is_explicit_text_content_type : Text → Bool
  unfolding normalize_media_type
  is_explicit_text_content_type content_type =
      let media_type = normalize_media_type content_type in
      has_prefix media_type (codes "text/") && not (text_eq media_type (codes "text/json"))
