-- ===== src/State/Codec.antt =====
-- `encode_protobuf` and `decode_protobuf` of rust/scheduler/src/state/mod.rs, over prost.
use ballista.Prelude.{List, [], ◌∷◌, ◌++◌, ◌≡◌, ◌≢◌}
use ballista.Text.{Text, Bytes, codes}
use ballista.Error.{internal, Result, ok, err, bind}

pub data Decoded (A : Type 0) : Type 0 where
  decoded : A → Decoded A
  undecodable : Text → Decoded A

-- A message type of prost: its encoding into a growing buffer, which cannot run out of room, its
-- decoding, and its Rust type name.
pub record Prost (A : Type 0) : Type 0 where
  pub encode : A → Bytes
  pub decode : Bytes → Decoded A
  pub type_name : Text

-- What protocol buffers promise: a message is read back, and only the message whose fields are all
-- absent is written as no bytes.
pub record IsProst {A : Type 0} (p : Prost A) (empty : A) : Type 0 where
  pub decode-encode : (a : A) → p.decode (p.encode a) ≡ decoded a
  pub encode-ne-nil : (a : A) → a ≢ empty → p.encode a ≢ []

module _ {A : Type 0} (p : Prost A) where
  abbrev decode_result : Decoded A → Result A
  decode_result (decoded a) = ok a
  decode_result (undecodable e) =
      err (internal (codes "Could not deserialize " ++ (p.type_name ++ (codes ": " ++ e))))

  unfoldable pub decode_protobuf : Bytes → Result A
  decode_protobuf bytes = decode_result (p.decode bytes)

  unfoldable pub encode_protobuf : A → Result Bytes
  encode_protobuf message = ok (p.encode message)

  -- `.map(|(_k, v)| decode_protobuf(&v)).collect::<Result<Vec<_>>>()`
  unfoldable pub decode_all : List (Text × Bytes) → Result (List A)
  unfolding decode_protobuf
  decode_all [] = ok []
  decode_all ((k, v) ∷ rest) =
      bind (decode_protobuf v) λ a. bind (decode_all rest) λ others. ok (a ∷ others)
