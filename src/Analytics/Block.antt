-- ===== src/Analytics/Block.antt =====
-- `parse_block` of rust/analytics/src/lib.rs: from the payload of a block to its objects. The lz4
-- decompression and the decoding of UTF-16 are arguments, and so is the depth of the stack, as the
-- fuel of the recursion over types.
use micromegas.Prelude.{ℕ, Bool, List, Result, ◌>>=◌}
use micromegas.Transit.Value.{UserDefinedType, Value}
use micromegas.Transit.Parser.Dependencies.{read_dependencies}
use micromegas.Transit.Parser.Objects.{parse_object_buffer}

-- `BlockPayload` (rust/telemetry/src/block_wire_format.rs): two compressed buffers.
pub record BlockPayload : Type 0 where
  pub dependencies : List ℕ
  pub objects : List ℕ

-- What `StreamInfo` (rust/telemetry/src/stream_info.rs) says of the types in the stream's blocks.
pub record StreamInfo : Type 0 where
  pub dependencies_metadata : List UserDefinedType
  pub objects_metadata : List UserDefinedType

-- What stands outside of the repository's code.
pub record Codec : Type 0 where
  pub decompress : List ℕ → Result (List ℕ)
  pub from_utf16_lossy : List ℕ → List ℕ
  pub depth : ℕ

module _ (c : Codec) (stream : StreamInfo) (payload : BlockPayload) {S : Type 0}
    (fun : Value → S → Result (Bool × S)) where
  unfoldable pub parse_block : S → Result (Bool × S)
  parse_block s = do
    dependency_bytes ← c.decompress payload.dependencies
    dependencies ←
        read_dependencies c.from_utf16_lossy c.depth stream.dependencies_metadata dependency_bytes
    object_bytes ← c.decompress payload.objects
    parse_object_buffer c.from_utf16_lossy c.depth dependencies stream.objects_metadata object_bytes
        fun s
